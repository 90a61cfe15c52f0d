-- ===== src/Node/Subscriptions/Stop.antt =====
-- What `handle_stop_video` of node/src/handle.rs does to the subscribers, the routes and the wire.
use pessi_streamer.Base.{
  ◌≡◌, ◌≢◌, refl, ap, ◌∙◌, inl, inr, true, ◌&&◌, ◌||◌, not, Option, none, some, List, [], ◌∷◌,
  length, arith, ==_iff, ==_refl, nat_eq, contains, retain, Bool-cases, unwrap_or, if◌then◌else◌,
  ◌==◌,
}
use pessi_streamer.Containers.{Containers, get, remove, get-remove, get-modify}
use pessi_streamer.Common.Packet.{
  SocketAddr, addr_eq, VideoId, SystemTime, Packet, server, stop_video,
}
use pessi_streamer.Common.Effect.{ok, err, io_error, continue_keeps}
use pessi_streamer.Common.Reliable.{Codec, Bytes, reliable}
use pessi_streamer.Common.Reliable.Delivery.{send_reliable_written}
use pessi_streamer.Node.State.{State, send}
use pessi_streamer.Common.Subscribers.{drop_subscriber}
use pessi_streamer.Node.Redirect.{unsubscribe, stop_route, handle_request_video, handle_stop_video}
use pessi_streamer.Node.Subscriptions.{
  subscribers, is_subscribed, subscribed-unsubscribe, subscribed-handle_request_video,
}

-- A list whose only element is `a` has none left without `a`.
drop_only :
    (xs : List SocketAddr) (a : SocketAddr)
    → ((b : SocketAddr) → contains xs b ≡ true → b ≡ a)
    → drop_subscriber a xs ≡ []
unfolding retain contains
drop_only [] a only = refl
drop_only (x ∷ xs) a only = ground (
  arith,
  drop_only xs a (λ b h. only b (ground (arith, h))),
  only x (ground (arith, ==_refl x)),
  ==_refl a,
)

module _ ⦃lib : Containers⦄ where
  last_unsubscribe :
      (v : VideoId) (addr : SocketAddr) (s : State)
      → ((b : SocketAddr) → is_subscribed s v b ≡ true → b ≡ addr)
      → subscribers (unsubscribe v addr s) v ≡ []
  unfolding unsubscribe
  last_unsubscribe v addr s only = ground (
    arith,
    get-modify s.interested v (drop_subscriber addr) v,
    ==_refl v,
    drop_only (subscribers s v) addr only,
  )

module _ ⦃lib : Containers⦄ ⦃codec : Codec Packet⦄ (now : SystemTime) where
  -- Whatever becomes of the message to the node that sends the video: the address does not get the
  -- video any more, and no other subscription changes.
  pub subscribed-handle_stop_video :
      (v : VideoId) (addr : SocketAddr) (s : State) (w : VideoId) (b : SocketAddr)
      → is_subscribed (handle_stop_video now v addr s).1 w b
        ≡ (not (v == w && addr == b) && is_subscribed s w b)
  unfolding handle_stop_video
  subscribed-handle_stop_video v addr s w b =
      ap (λ m. contains (unwrap_or (get m w) []) b) kept ∙ subscribed-unsubscribe v addr s w b
    where
      sent :
          (route : Option SocketAddr) (t : State)
          → (stop_route now v route t).1.interested ≡ t.interested
      sent none t = unfold stop_route in refl
      sent (some node) t =
          unfold stop_route send in
          continue_keeps (λ u. u.interested ≡ t.interested)
            (send now (server (stop_video v)) node
              (record t { video_routes = remove t.video_routes v }))
            _ refl (λ _ _. refl)

      kept : (handle_stop_video now v addr s).1.interested ≡ (unsubscribe v addr s).interested
      kept = elim (Bool-cases (length (subscribers (unsubscribe v addr s) v) == 0)) [
        | inl last ↦
            rw last (sent (get (unsubscribe v addr s).video_routes v) (unsubscribe v addr s))
        | inr more ↦ rw more
      ]

  -- While another address is subscribed, the video goes on: only the subscription is dropped.
  pub handle_stop_video_others :
      (v : VideoId) (addr b : SocketAddr) (s : State)
      → is_subscribed s v b ≡ true
      → b ≢ addr
      → handle_stop_video now v addr s ≡ (ok tt, unsubscribe v addr s)
  unfolding handle_stop_video contains
  handle_stop_video_others v addr b s subscribed other =
      go (subscribers (unsubscribe v addr s) v) refl
    where
      still : is_subscribed (unsubscribe v addr s) v b ≡ true
      still = ground (arith, subscribed-unsubscribe v addr s v b, ==_iff addr b, subscribed, other)

      go :
          (xs : List SocketAddr)
          → subscribers (unsubscribe v addr s) v ≡ xs
          → handle_stop_video now v addr s ≡ (ok tt, unsubscribe v addr s)
      go [] e = absurd (ground (arith, e, still))
      go (x ∷ xs) e = ground (arith, e)

  stop_route_lem :
      (v : VideoId) (node : SocketAddr) (d : Bytes) (s : State) (w : VideoId)
      → codec.serialize (reliable s.socket.sequence_number (server (stop_video v))) ≡ some d
      → let sent = s.socket.fate s.socket.calls in
        let s' = (stop_route now v (some node) s).1 in
        ((stop_route now v (some node) s).0 ≡ (if sent then ok tt else err io_error))
        × (s'.socket.wire ≡ (if sent then (node, d) ∷ s.socket.wire else s.socket.wire))
        × (get s'.video_routes w ≡ (if v == w then none else get s.video_routes w))
  unfolding stop_route send
  stop_route_lem v node d s w written =
      let (outcome, out) =
        send_reliable_written now (server (stop_video v)) node d s.socket written in
      elim (Bool-cases (s.socket.fate s.socket.calls)) [
        | inl sent ↦ (
          ground (arith, outcome, sent),
          ground (arith, outcome, out, sent),
          ground (arith, outcome, sent, get-remove s.video_routes v w),
        )
        | inr lost ↦ (
          ground (arith, outcome, lost),
          ground (arith, outcome, out, lost),
          ground (arith, outcome, lost, get-remove s.video_routes v w),
        )
      ]

  handle_stop_video_stops :
      (v : VideoId) (addr node : SocketAddr) (s : State)
      → subscribers (unsubscribe v addr s) v ≡ []
      → get s.video_routes v ≡ some node
      → handle_stop_video now v addr s ≡ stop_route now v (some node) (unsubscribe v addr s)
  unfolding handle_stop_video unsubscribe
  handle_stop_video_stops v addr node s empty routed = ground (arith, empty, routed)

  -- With its last subscriber gone, a video that comes from some node is stopped, where the
  -- message can be written: its route is removed, the other routes stay, and the node is told
  -- if the system sends the message.
  pub handle_stop_video_last :
      (v : VideoId) (addr node : SocketAddr) (d : Bytes) (s : State) (w : VideoId)
      → ((b : SocketAddr) → is_subscribed s v b ≡ true → b ≡ addr)
      → get s.video_routes v ≡ some node
      → codec.serialize (reliable s.socket.sequence_number (server (stop_video v))) ≡ some d
      → let sent = s.socket.fate s.socket.calls in
        let s' = (handle_stop_video now v addr s).1 in
        ((handle_stop_video now v addr s).0 ≡ (if sent then ok tt else err io_error))
        × (s'.socket.wire ≡ (if sent then (node, d) ∷ s.socket.wire else s.socket.wire))
        × (get s'.video_routes w ≡ (if v == w then none else get s.video_routes w))
  unfolding unsubscribe
  handle_stop_video_last v addr node d s w only routed written =
      let stops = handle_stop_video_stops v addr node s (last_unsubscribe v addr s only) routed in
      let (outcome, out, routes) = stop_route_lem v node d (unsubscribe v addr s) w written in
      (
        ap (λ m. m.0) stops ∙ outcome,
        ap (λ m. m.1.socket.wire) stops ∙ out,
        ap (λ m. get m.1.video_routes w) stops ∙ routes,
      )

  -- Whatever becomes of the messages: after a request the address gets the video, after a stop it does
  -- not, and no other subscription changes.
  pub subscribed_lem :
      (v : VideoId) (addr : SocketAddr) (s : State) (w : VideoId) (b : SocketAddr)
      → (is_subscribed (handle_request_video now v addr s).1 w b
          ≡ ((v == w && addr == b) || is_subscribed s w b))
        × (is_subscribed (handle_stop_video now v addr s).1 w b
            ≡ (not (v == w && addr == b) && is_subscribed s w b))
  subscribed_lem v addr s w b =
      (subscribed-handle_request_video now v addr s w b, subscribed-handle_stop_video v addr s w b)
