-- ===== src/Node/Subscriptions.antt =====
-- What `handle_request_video` and `handle_stop_video` of node/src/handle.rs do to the subscribers,
-- the routes and the wire.
pub mod Stop
use pessi_streamer.Base.{
  ℕ, suc, ◌+◌, ◌%◌, ◌<◌, ◌≡◌, ◌≢◌, ◌⊎◌, refl, ap, sym, ◌∙◌, inl, inr, Bool, true, false, ◌&&◌, ◌||◌,
  not, Option, none, some, List, [], ◌∷◌, ◌++◌, length, arith, ==_iff, ==_refl, nat_eq, contains,
  contains-append, contains-retain, retain, Bool-cases, Option-cases, unwrap_or, if◌then◌else◌,
  is_some, ◌==◌,
}
use pessi_streamer.Containers.{
  Containers, get, insert, remove, get-insert, get-remove, get-modify, contains_key,
}
use pessi_streamer.Common.Packet.{
  SocketAddr, addr_eq, VideoId, SystemTime, Packet, server, request_video, stop_video, u64_mod,
}
use pessi_streamer.Common.Effect.{
  Outcome, ok, err, panic, io_error, Task, continue_keeps, continue, pure, ◌>>=◌, ◌>>◌,
}
use pessi_streamer.Common.Reliable.{Socket, Codec, Bytes, reliable, send_reliable}
use pessi_streamer.Common.Reliable.Delivery.{send_reliable_written}
use pessi_streamer.Common.Subscribers.{
  add_subscriber, drop_subscriber, contains-add_subscriber, contains-drop_subscriber,
}
use pessi_streamer.Node.State.{State, send}
use pessi_streamer.Node.Routing.{get_best_node_to_redirect, get_number_of_videos_requested_via_node}
use pessi_streamer.Node.Frame.{best_node-frame, request_or_queue-frame}
use pessi_streamer.Node.Redirect.{
  subscribe, unsubscribe, request_video_to_node, request_or_queue, handle_request_video, stop_route,
  handle_stop_video, push_pending, best_node,
}

module _ ⦃lib : Containers⦄ where
  -- The subscribers of a video; none where there is no entry.
  abbrev pub subscribers : State → VideoId → List SocketAddr
  subscribers s v = unwrap_or (get s.interested v) []

  -- `addr` gets the video.
  abbrev pub is_subscribed : State → VideoId → SocketAddr → Bool
  is_subscribed s v addr = contains (subscribers s v) addr

  subscribed-subscribe :
      (v : VideoId) (addr : SocketAddr) (s : State) (w : VideoId) (b : SocketAddr)
      → is_subscribed (subscribe v addr s) w b ≡ ((v == w && addr == b) || is_subscribed s w b)
  unfolding subscribe contains
  subscribed-subscribe v addr s w b = ground (
    arith,
    get-insert s.interested v (add_subscriber addr (subscribers s v)) w,
    contains-add_subscriber addr b (subscribers s v),
    ==_iff v w,
  )

  pub subscribed-unsubscribe :
      (v : VideoId) (addr : SocketAddr) (s : State) (w : VideoId) (b : SocketAddr)
      → is_subscribed (unsubscribe v addr s) w b
        ≡ (not (v == w && addr == b) && is_subscribed s w b)
  unfolding unsubscribe contains
  subscribed-unsubscribe v addr s w b = ground (
    arith,
    get-modify s.interested v (drop_subscriber addr) w,
    contains-drop_subscriber addr b (subscribers s v),
    ==_iff v w,
  )

  get_best-subscribe :
      (v w : VideoId) (addr : SocketAddr) (s : State)
      → get_best_node_to_redirect (subscribe v addr s) w ≡ get_best_node_to_redirect s w
  unfolding get_best_node_to_redirect subscribe get_number_of_videos_requested_via_node
  get_best-subscribe v w addr s = refl

module _ ⦃lib : Containers⦄ ⦃codec : Codec Packet⦄ (now : SystemTime) where
  -- Whatever becomes of the request: the address gets the video afterwards, and no other
  -- subscription changes.
  pub subscribed-handle_request_video :
      (v : VideoId) (addr : SocketAddr) (s : State) (w : VideoId) (b : SocketAddr)
      → is_subscribed (handle_request_video now v addr s).1 w b
        ≡ ((v == w && addr == b) || is_subscribed s w b)
  unfolding handle_request_video
  subscribed-handle_request_video v addr s w b =
      ap (λ m. contains (unwrap_or (get m w) []) b)
        (kept (contains_key (subscribe v addr s).video_routes v) refl)
      ∙ subscribed-subscribe v addr s w b
    where
      kept :
          (routed : Bool)
          → contains_key (subscribe v addr s).video_routes v ≡ routed
          → (handle_request_video now v addr s).1.interested ≡ (subscribe v addr s).interested
      kept true e = rw e
      kept false e = rw e (
          continue_keeps (λ t. t.interested ≡ (subscribe v addr s).interested)
            (best_node v (subscribe v addr s)) _
            (best_node-frame (λ t. t.interested) (λ _ _. refl) (λ _ _. refl) (λ _ _. refl) now _ v
              (subscribe v addr s) refl)
            λ best _.
              request_or_queue-frame (λ t. t.interested) (λ _ _. refl) (λ _ _. refl) (λ _ _. refl)
                now _ v best (best_node v (subscribe v addr s)).1
                (best_node-frame (λ t. t.interested) (λ _ _. refl) (λ _ _. refl) (λ _ _. refl) now _
                  v (subscribe v addr s) refl))

  -- A video that is already received from some node: the address is added to the subscribers, and
  -- nothing else happens.
  pub handle_request_video_routed :
      (v : VideoId) (addr node : SocketAddr) (s : State)
      → get s.video_routes v ≡ some node
      → handle_request_video now v addr s ≡ (ok tt, subscribe v addr s)
  unfolding handle_request_video subscribe
  handle_request_video_routed v addr node s routed = ground (arith, routed)

  -- A video that is received from no node, while no node offers it: the request waits in the queue,
  -- and nothing is sent.
  pub handle_request_video_queued :
      (v : VideoId) (addr : SocketAddr) (s : State)
      → get s.video_routes v ≡ none
      → get_best_node_to_redirect s v ≡ some none
      → handle_request_video now v addr s ≡ (ok tt, push_pending (v ∷ []) (subscribe v addr s))
  unfolding handle_request_video request_or_queue subscribe
  handle_request_video_queued v addr s unrouted no_node =
      ground (arith, unrouted, get_best-subscribe v v addr s, no_node)

  -- A request to a node, on both outcomes of the system call.
  pub request_video_to_node_lem :
      (v : VideoId) (node : SocketAddr) (b : Bytes) (s : State) (w : VideoId)
      → codec.serialize (reliable s.socket.sequence_number (server (request_video v))) ≡ some b
      → let sent = s.socket.fate s.socket.calls in
        let s' = (request_video_to_node now v node s).1 in
        ((request_video_to_node now v node s).0 ≡ (if sent then ok tt else err io_error))
        × (s'.socket.wire ≡ (if sent then (node, b) ∷ s.socket.wire else s.socket.wire))
        × (get s'.video_routes w ≡ (if sent && (v == w) then some node else get s.video_routes w))
  unfolding request_video_to_node send
  request_video_to_node_lem v node b s w written =
      let (outcome, out) =
        send_reliable_written now (server (request_video v)) node b s.socket written in
      elim (Bool-cases (s.socket.fate s.socket.calls)) [
        | inl sent ↦ (
          ground (arith, outcome, sent),
          ground (arith, outcome, out, sent),
          ground (arith, outcome, sent, get-insert s.video_routes v node w),
        )
        | inr lost ↦ (
          ground (arith, outcome, lost),
          ground (arith, outcome, out, lost),
          ground (arith, outcome, lost),
        )
      ]

  pub handle_request_video_chosen :
      (v : VideoId) (addr node : SocketAddr) (s : State)
      → get s.video_routes v ≡ none
      → get_best_node_to_redirect s v ≡ some (some node)
      → handle_request_video now v addr s ≡ request_video_to_node now v node (subscribe v addr s)
  unfolding handle_request_video request_or_queue subscribe
  handle_request_video_chosen v addr node s unrouted chosen =
      ground (arith, unrouted, get_best-subscribe v v addr s, chosen)

  -- A video that is received from no node, while a node is found and the request can be
  -- written: the node is asked for the video. If the request goes out it is on the wire, and
  -- the video is received from that node from now on; if the system refuses it, the handler
  -- fails, and the routes are as before. The address is among the subscribers in both cases.
  pub handle_request_video_asks :
      (v : VideoId) (addr node : SocketAddr) (b : Bytes) (s : State) (w : VideoId)
      → get s.video_routes v ≡ none
      → get_best_node_to_redirect s v ≡ some (some node)
      → codec.serialize (reliable s.socket.sequence_number (server (request_video v))) ≡ some b
      → let sent = s.socket.fate s.socket.calls in
        let s' = (handle_request_video now v addr s).1 in
        ((handle_request_video now v addr s).0 ≡ (if sent then ok tt else err io_error))
        × (s'.socket.wire ≡ (if sent then (node, b) ∷ s.socket.wire else s.socket.wire))
        × (get s'.video_routes w ≡ (if sent && (v == w) then some node else get s.video_routes w))
        × (is_subscribed s' v addr ≡ true)
  unfolding handle_request_video request_or_queue subscribe
  handle_request_video_asks v addr node b s w unrouted chosen written =
      let asks = handle_request_video_chosen v addr node s unrouted chosen in
      let (outcome, out, routes) =
        request_video_to_node_lem v node b (subscribe v addr s) w written in
      (
        ap (λ m. m.0) asks ∙ outcome,
        ap (λ m. m.1.socket.wire) asks ∙ out,
        ap (λ m. get m.1.video_routes w) asks ∙ routes,
        subscribed-handle_request_video v addr s v addr
            ∙ ground (arith, ==_iff v v, ==_iff addr addr),
      )
