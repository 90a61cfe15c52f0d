-- ===== src/Node/Outcomes.antt =====
-- The outcomes of the operations that node.rs wraps in an error log: they go on in any case.
use Prim.Native.String.{String}
use pessi_streamer.Base.{
  ◌≡◌, inl, inr, Option, none, some, List, [], ◌==◌, nat_eq, length, retain, any, unwrap_or,
  Bool-cases,
}
use pessi_streamer.Containers.{Containers, get, remove}
use pessi_streamer.Common.Packet.{
  SocketAddr, addr_eq, VideoId, SystemTime, Packet, node, server, request_video, stop_video,
  new_neighbour,
}
use pessi_streamer.Common.Effect.{ok, Calm, Calm-continue, logged-ok, log_error, for_each-ok}
use pessi_streamer.Common.Reliable.{Codec}
use pessi_streamer.Common.Reliable.Outcomes.{send_reliable-Sound}
use pessi_streamer.Node.State.{State, send}
use pessi_streamer.Node.Redirect.{
  request_video_to_node, stop_route, handle_stop_video, unsubscribe, connect_to_node_parent,
  connect_to_parents, check_pending_videos,
}

module _ ⦃lib : Containers⦄ ⦃codec : Codec Packet⦄ (now : SystemTime) where
  pub send-Calm : (p : Packet) (addr : SocketAddr) (s : State) → Calm (send now p addr s).0
  unfolding send
  send-Calm p addr s =
      let (sane, free, _, _) = send_reliable-Sound now p addr s.socket in (sane, free)

  pub request_video_to_node-Calm :
      (v : VideoId) (addr : SocketAddr) (s : State) → Calm (request_video_to_node now v addr s).0
  unfolding request_video_to_node
  request_video_to_node-Calm v addr s =
      Calm-continue (send now (server (request_video v)) addr s) _
        (send-Calm (server (request_video v)) addr s) (λ _ _. ((λ p. cc), λ p. cc))

  stop_route-Calm :
      (v : VideoId) (route : Option SocketAddr) (s : State) → Calm (stop_route now v route s).0
  unfolding stop_route
  stop_route-Calm v none s = ((λ p. cc), λ p. cc)
  stop_route-Calm v (some addr) s =
      let t : State = record s { video_routes = remove s.video_routes v } in
      Calm-continue (send now (server (stop_video v)) addr t) _
        (send-Calm (server (stop_video v)) addr t) (λ _ _. ((λ p. cc), λ p. cc))

  pub handle_stop_video-Calm :
      (v : VideoId) (addr : SocketAddr) (s : State) → Calm (handle_stop_video now v addr s).0
  unfolding handle_stop_video
  handle_stop_video-Calm v addr s =
      let t = unsubscribe v addr s in
      elim (Bool-cases (length (unwrap_or (get t.interested v) []) == 0)) [
        | inl last ↦ rw last (stop_route-Calm v (get t.video_routes v) t)
        | inr more ↦ rw more ((λ p. cc), λ p. cc)
      ]

  connect_to_node_parent-Calm :
      (addr : SocketAddr) (s : State) → Calm (connect_to_node_parent now addr s).0
  unfolding connect_to_node_parent
  connect_to_node_parent-Calm addr s =
      Calm-continue (send now (node new_neighbour) addr s) _ (send-Calm (node new_neighbour) addr s)
        (λ _ _. ((λ p. cc), λ p. cc))

  pub connect_to_parents-ok :
      (addrs : List SocketAddr) (s : State) → (connect_to_parents now addrs s).0 ≡ ok tt
  unfolding connect_to_parents
  connect_to_parents-ok addrs s =
      for_each-ok addrs _
        (λ addr t. elim (Bool-cases (addr == t.socket.local_addr)) [
          | inl same ↦ rw same
          | inr other ↦ rw other (logged-ok _ (connect_to_node_parent-Calm addr t))
        ])
        s

  -- The queued requests never keep the handler from going on.
  pub check_pending_videos-ok :
      (from : SocketAddr) (received : List (VideoId × String)) (s : State)
      → (check_pending_videos now from received s).0 ≡ ok tt
  unfolding check_pending_videos
  check_pending_videos-ok from received s =
      let wanted = retain (λ v. any (λ e. e.0 == v) received) s.pending_video_requests in
      let ask = λ (v : VideoId). log_error (request_video_to_node now v from) in
      rw (for_each-ok wanted ask (λ v t. logged-ok _ (request_video_to_node-Calm v from t)) s)
