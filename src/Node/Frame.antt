-- ===== src/Node/Frame.antt =====
-- The parts of the state that the operations of node.rs leave alone. `f` reads a part that does not
-- change with the socket, the video routes and the pending requests.
use Prim.Native.String.{String}
use pessi_streamer.Base.{
  ◌≡◌, ◌∙◌, inl, inr, Option, none, some, List, [], ◌∷◌, length, nat_eq, Bool-cases, Option-cases,
  unwrap_or, if◌then◌else◌, retain, any, ◌==◌, is_empty,
}
use pessi_streamer.Containers.{Containers, Map, get, remove}
use pessi_streamer.Common.Packet.{
  SocketAddr, addr_eq, VideoId, SystemTime, Packet, node, server, new_neighbour, request_video,
  stop_video,
}
use pessi_streamer.Common.Effect.{Task, pure, log_error, for_each, continue_keeps, for_each_keeps}
use pessi_streamer.Common.Reliable.{Socket, Codec}
use pessi_streamer.Node.State.{State, send, Spawned}
use pessi_streamer.Node.Routing.{get_best_node_to_redirect}
use pessi_streamer.Node.Redirect.{
  unsubscribe, request_video_to_node, request_or_queue, stop_route, handle_stop_video,
  connect_to_node_parent, check_pending_videos, redirect_to, redirect_all, connect_to_parents,
  handle_unresponsive_node, push_pending, best_node, videos_to, videos_from, route_parents,
}
use pessi_streamer.Node.Handle.{}

module _ ⦃lib : Containers⦄ ⦃codec : Codec Packet⦄ {F : Type 0} (f : State → F)
    (socket : (s : State) (k : Socket) → f (record s { socket = k }) ≡ f s)
    (routes : (s : State) (m : Map VideoId SocketAddr) → f (record s { video_routes = m }) ≡ f s)
    (pending : (s : State) (vs : List VideoId) → f (record s { pending_video_requests = vs }) ≡ f s)
    (now : SystemTime) where
  send-frame :
      (c : F) (p : Packet) (addr : SocketAddr) (s : State) → f s ≡ c → f (send now p addr s).1 ≡ c
  unfolding send
  send-frame c p addr s h = socket s _ ∙ h

  pub request_video_to_node-frame :
      (c : F) (v : VideoId) (addr : SocketAddr) (s : State)
      → f s ≡ c
      → f (request_video_to_node now v addr s).1 ≡ c
  unfolding request_video_to_node
  request_video_to_node-frame c v addr s h =
      let sent = send-frame c (server (request_video v)) addr s h in
      continue_keeps (λ t. f t ≡ c) (send now (server (request_video v)) addr s) _ sent
        (λ _ _. routes _ _ ∙ sent)

  pub request_or_queue-frame :
      (c : F) (v : VideoId) (best : Option SocketAddr) (s : State)
      → f s ≡ c
      → f (request_or_queue now v best s).1 ≡ c
  unfolding request_or_queue push_pending
  request_or_queue-frame c v none s h = pending s _ ∙ h
  request_or_queue-frame c v (some addr) s h = request_video_to_node-frame c v addr s h

  pub best_node-frame : (c : F) (v : VideoId) (s : State) → f s ≡ c → f (best_node v s).1 ≡ c
  best_node-frame c v s h = elim (Option-cases (get_best_node_to_redirect s v)) [
    | inl panics ↦ rw (panics, best_node) h
    | inr (o, chosen) ↦ rw (chosen, best_node) h
  ]

  pub redirect_to-frame :
      (c : F) (v : VideoId) (best : Option SocketAddr) (s : State)
      → f s ≡ c
      → f (redirect_to now v best s).1 ≡ c
  unfolding redirect_to
  redirect_to-frame c v none s h = h
  redirect_to-frame c v (some addr) s h =
      let asked = request_video_to_node-frame c v addr s h in
      continue_keeps (λ t. f t ≡ c) (log_error (request_video_to_node now v addr) s) _ asked
        (λ _ _. asked)

  pub redirect_all-frame :
      (c : F) (vs : List VideoId) (s : State) → f s ≡ c → f (redirect_all now vs s).1 ≡ c
  unfolding redirect_all
  redirect_all-frame c [] s h = h
  redirect_all-frame c (v ∷ vs) s h =
      let chosen = best_node-frame c v s h in
      continue_keeps (λ t. f t ≡ c) (best_node v s) _ chosen
        λ best _.
          let moved = redirect_to-frame c v best (best_node v s).1 chosen in
          continue_keeps (λ t. f t ≡ c) (redirect_to now v best (best_node v s).1) _ moved
            λ left _.
              let rest =
                redirect_all-frame c vs (redirect_to now v best (best_node v s).1).1 moved in
              continue_keeps (λ t. f t ≡ c)
                (redirect_all now vs (redirect_to now v best (best_node v s).1).1) _ rest
                (λ _ _. rest)

  pub check_pending_videos-frame :
      (c : F) (from : SocketAddr) (received : List (VideoId × String)) (s : State)
      → f s ≡ c
      → f (check_pending_videos now from received s).1 ≡ c
  unfolding check_pending_videos
  check_pending_videos-frame c from received s h =
      let wanted = retain (λ v. any (λ e. e.0 == v) received) s.pending_video_requests in
      let ask = λ (v : VideoId). log_error (request_video_to_node now v from) in
      let asked =
        for_each_keeps (λ t. f t ≡ c) wanted ask (λ v t g. request_video_to_node-frame c v from t g)
          s h in
      continue_keeps (λ t. f t ≡ c) (for_each wanted ask s) _ asked (λ _ _. pending _ _ ∙ asked)

  -- A part that does not change with the spawned tasks either.
  module _ (tasks : (s : State) (ts : List Spawned) → f (record s { spawned = ts }) ≡ f s) where
    pub connect_to_parents-frame :
        (c : F) (addrs : List SocketAddr) (s : State)
        → f s ≡ c
        → f (connect_to_parents now addrs s).1 ≡ c
    unfolding connect_to_parents connect_to_node_parent
    connect_to_parents-frame c addrs s h =
        for_each_keeps (λ t. f t ≡ c) addrs _
          (λ addr t g. elim (Bool-cases (addr == t.socket.local_addr)) [
            | inl same ↦ rw same g
            | inr other ↦
                let sent = send-frame c (node new_neighbour) addr t g in
                rw other (
                  continue_keeps (λ t. f t ≡ c) (send now (node new_neighbour) addr t) _ sent
                    (λ _ _. tasks _ _ ∙ sent))
          ])
          s h

    -- A part that does not change with the subscribers either.
    module _
        (subscribers : (s : State) (m : Map VideoId (List SocketAddr))
          → f (record s { interested = m }) ≡ f s) where
      stop_route-frame :
          (c : F) (v : VideoId) (route : Option SocketAddr) (s : State)
          → f s ≡ c
          → f (stop_route now v route s).1 ≡ c
      unfolding stop_route
      stop_route-frame c v none s h = h
      stop_route-frame c v (some addr) s h =
          let t : State = record s { video_routes = remove s.video_routes v } in
          let sent = send-frame c (server (stop_video v)) addr t (routes s _ ∙ h) in
          continue_keeps (λ t. f t ≡ c) (send now (server (stop_video v)) addr t) _ sent
            (λ _ _. sent)

      pub handle_stop_video-frame :
          (c : F) (v : VideoId) (addr : SocketAddr) (s : State)
          → f s ≡ c
          → f (handle_stop_video now v addr s).1 ≡ c
      unfolding handle_stop_video unsubscribe
      handle_stop_video-frame c v addr s h =
          let t = unsubscribe v addr s in
          let h' : f t ≡ c = subscribers s _ ∙ h in
          elim (Bool-cases (length (unwrap_or (get t.interested v) []) == 0)) [
            | inl last ↦ rw last (stop_route-frame c v (get t.video_routes v) t h')
            | inr more ↦ rw more h'
          ]

      pub handle_unresponsive_node-frame :
          (c : F) (addr : SocketAddr) (s : State)
          → f s ≡ c
          → f (handle_unresponsive_node now addr s).1 ≡ c
      unfolding handle_unresponsive_node push_pending
      handle_unresponsive_node-frame c addr s h =
          let drop = λ (v : VideoId). log_error (handle_stop_video now v addr) in
          let stopped =
            for_each_keeps (λ t. f t ≡ c) (videos_to addr s) drop
              (λ v t g. handle_stop_video-frame c v addr t g) s h in
          continue_keeps (λ t. f t ≡ c) (for_each (videos_to addr s) drop s) _ stopped
            λ _ _.
              let moved =
                redirect_all-frame c (videos_from addr s) (for_each (videos_to addr s) drop s).1
                  stopped in
              continue_keeps (λ t. f t ≡ c)
                (redirect_all now (videos_from addr s) (for_each (videos_to addr s) drop s).1) _
                moved
                λ remaining _.
                  let u =
                    (redirect_all now (videos_from addr s)
                      (for_each (videos_to addr s) drop s).1).1 in
                  let reach =
                    connect_or_skip remaining (route_parents (get u.available_routes addr)) in
                  let tried =
                    connect_or_skip-frame c remaining (route_parents (get u.available_routes addr))
                      u moved in
                  continue_keeps (λ t. f t ≡ c) (reach u) _ tried (λ _ _. pending _ _ ∙ tried)
        where
          connect_or_skip : List VideoId → List SocketAddr → Task State Unit
          connect_or_skip remaining addrs =
              if is_empty remaining then pure tt else connect_to_parents now addrs

          connect_or_skip-frame :
              (c : F) (remaining : List VideoId) (addrs : List SocketAddr) (s : State)
              → f s ≡ c
              → f (connect_or_skip remaining addrs s).1 ≡ c
          connect_or_skip-frame c [] addrs s h = h
          connect_or_skip-frame c (v ∷ vs) addrs s h = connect_to_parents-frame c addrs s h
