-- ===== src/Node/Recovery.antt =====
-- What `handle_unresponsive_node` of node/src/node.rs does for the videos of a lost node.
pub mod Ready
mod Places
use pessi_streamer.Base.{
  ℕ, ◌≡◌, ◌⊎◌, refl, ap, subst, ◌∙◌, inl, inr, true, false, Option, none, some, List, [], ◌∷◌, ◌++◌,
  length, arith, ==_iff, ==_refl, nat_eq, contains, contains-append, Bool-cases, unwrap_or,
  if◌then◌else◌, ◌==◌, In, In-retain, In-keys, is_empty,
}
use pessi_streamer.Containers.{Containers, get, iter, remove, In-iter}
use pessi_streamer.Common.Packet.{
  SocketAddr, addr_eq, VideoId, SystemTime, Packet, node, server, new_neighbour, request_video,
  stop_video,
}
use pessi_streamer.Common.Effect.{
  ok, Task, continue, pure, log_error, for_each, for_each-ok, for_each_keeps, continue_keeps,
  logged-ok, bind-ok,
}
use pessi_streamer.Common.Reliable.{Codec, Bytes, reliable}
use pessi_streamer.Common.Reliable.Outcomes.{send_reliable-Sound}
use pessi_streamer.Node.State.{State, RouteInfo, is_active, send}
use pessi_streamer.Node.Best.{AreMeasured, IsBestNode, get_best_node_to_redirect_lem}
use pessi_streamer.Node.Outcomes.{handle_stop_video-Calm, connect_to_parents-ok}
use pessi_streamer.Node.Subscriptions.{request_video_to_node_lem}
use pessi_streamer.Node.Redirect.{
  request_video_to_node, handle_stop_video, redirect_to, redirect_all, best_node,
  connect_to_node_parent, connect_to_parents, push_pending, videos_from, videos_to,
  handle_unresponsive_node, route_parents, stop_route, unsubscribe,
}
use pessi_streamer.Node.Recovery.Ready.{
  IsReady, IsReady-frame, Elsewhere, best-ne-gone, send-IsReady, request-IsReady, Writes,
}
use pessi_streamer.Node.Recovery.Places.{redirect_all_places}

module _ ⦃lib : Containers⦄ ⦃codec : Codec Packet⦄ (now : SystemTime) (addr : SocketAddr)
    (writes : Writes codec) where
  stop_route-IsReady :
      (v : VideoId) (route : Option SocketAddr) (t : State)
      → IsReady addr t
      → IsReady addr (stop_route now v route t).1
  unfolding stop_route
  stop_route-IsReady v none t h = h
  stop_route-IsReady v (some a) t h =
      let u : State = record t { video_routes = remove t.video_routes v } in
      let sent =
        send-IsReady now addr (server (stop_video v)) a u (IsReady-frame addr t _ refl refl h) in
      continue_keeps (IsReady addr) (send now (server (stop_video v)) a u) _ sent (λ _ _. sent)

  stop-IsReady :
      (v : VideoId) (s : State) → IsReady addr s → IsReady addr (handle_stop_video now v addr s).1
  unfolding handle_stop_video unsubscribe
  stop-IsReady v s ready =
      let t = unsubscribe v addr s in
      let ready' : IsReady addr t = IsReady-frame addr s _ refl refl ready in
      elim (Bool-cases (length (unwrap_or (get t.interested v) []) == 0)) [
        | inl last ↦ rw last (stop_route-IsReady v (get t.video_routes v) t ready')
        | inr more ↦ rw more ready'
      ]

  connect_to_parents-routes :
      (addrs : List SocketAddr) (s : State)
      → (connect_to_parents now addrs s).1.video_routes ≡ s.video_routes
  unfolding connect_to_parents connect_to_node_parent send
  connect_to_parents-routes addrs s =
      for_each_keeps (λ t. t.video_routes ≡ s.video_routes) addrs _
        (λ a t g. elim (Bool-cases (a == t.socket.local_addr)) [
          | inl same ↦ rw same g
          | inr other ↦ rw other (
              continue_keeps (λ u. u.video_routes ≡ s.video_routes)
                (send now (node new_neighbour) a t) _ g (λ _ _. g))
        ])
        s refl

  reach : List VideoId → List SocketAddr → Task State Unit
  reach left parents = if is_empty left then pure tt else connect_to_parents now parents

  reach_lem :
      (left : List VideoId) (parents : List SocketAddr) (u : State)
      → (reach left parents u ≡ (ok tt, (reach left parents u).1))
        × ((reach left parents u).1.video_routes ≡ u.video_routes)
  unfolding reach
  reach_lem left parents u = elim (Bool-cases (is_empty left)) [
    | inl none_left ↦ rw none_left (refl, refl)
    | inr some_left ↦ rw some_left (
      ap (λ r. (r, (connect_to_parents now parents u).1)) (connect_to_parents-ok now parents u),
      connect_to_parents-routes parents u,
    )
  ]

  -- A node is lost while the averages of all routes are defined, it is no active route any
  -- more, every request for a video can be written, and the system takes every send: the
  -- handler comes to its end, and every video that was received from the lost node is received
  -- from another node, or waits in the queue.
  pub handle_unresponsive_node_redirects :
      (s : State) (v : VideoId)
      → IsReady addr s
      → get s.video_routes v ≡ some addr
      → ((handle_unresponsive_node now addr s).0 ≡ ok tt)
        × (Elsewhere addr (handle_unresponsive_node now addr s).1 v
            ⊎ (contains (handle_unresponsive_node now addr s).1.pending_video_requests v ≡ true))
  unfolding handle_unresponsive_node videos_from push_pending reach
  handle_unresponsive_node_redirects s v ready found =
      let drop = λ (v : VideoId). log_error (handle_stop_video now v addr) in
      let t = (for_each (videos_to addr s) drop s).1 in
      let stopped : for_each (videos_to addr s) drop s ≡ (ok tt, t) =
        ap (λ r. (r, t))
          (for_each-ok (videos_to addr s) drop
            (λ v x. logged-ok _ (handle_stop_video-Calm now v addr x)) s) in
      let ready' : IsReady addr t =
        for_each_keeps (IsReady addr) (videos_to addr s) drop (λ v u h. stop-IsReady v u h) s
          ready in
      let (left, u, moved, placed, _) =
        redirect_all_places now addr writes (videos_from addr s) t ready' in
      let parents = route_parents (get u.available_routes addr) in
      let (reached, routes) = reach_lem left parents u in
      let all : handle_unresponsive_node now addr s
          ≡ (ok tt, push_pending left (reach left parents u).1) =
        bind-ok (for_each (videos_to addr s) drop) _ s stopped
        ∙ bind-ok (redirect_all now (videos_from addr s)) _ t moved
        ∙ bind-ok (reach left parents) _ u reached in
      rw all (
        refl,
        (let entry =
              In-keys _ (v, addr)
                (In-retain (λ e. e.1 == addr) (iter s.video_routes) (v, addr)
                  (In-iter s.video_routes v addr found) (==_refl addr)) in
            elim (placed v entry) [
              | inl (b, there, apart) ↦ inl (b, rw routes there, apart)
              | inr over ↦ inr (
                  ground (
                    arith,
                    over,
                    contains-append (reach left parents u).1.pending_video_requests left v,
                  ))
            ]),
      )
