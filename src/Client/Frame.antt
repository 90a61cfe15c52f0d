-- ===== src/Client/Frame.antt =====
-- The parts of the client's state that its requests leave alone (client/src/client.rs). `P` is a
-- property that does not look at the socket.
use pessi_streamer.Base.{inl, inr, Option, none, some, Option-cases, nat_eq}
use pessi_streamer.Containers.{Containers, Map, get}
use pessi_streamer.Common.Packet.{
  SocketAddr, addr_eq, VideoId, SystemTime, Packet, server, request_video, stop_video,
}
use pessi_streamer.Common.Effect.{pure, log_error, continue_keeps, ◌>>◌}
use pessi_streamer.Common.Reliable.{Socket, Codec}
use pessi_streamer.Client.State.{State, PlayingVideo, send, select_best_node}
use pessi_streamer.Client.Handle.{
  best_node, place, request_start_video, request_stop_video, ask_for,
  select_best_server_and_request, give_source,
}
use pessi_streamer.Client.Tasks.{redirect, set_source}

module _ ⦃lib : Containers⦄ ⦃codec : Codec Packet⦄ (P : State → Type 0)
    (socket : (s : State) (k : Socket) → P s → P (record s { socket = k })) (now : SystemTime) where
  send_keeps : (p : Packet) (addr : SocketAddr) (s : State) → P s → P (send now p addr s).1
  unfolding send
  send_keeps p addr s h = socket s _ h

  told_keeps :
      (p : Packet) (addr : SocketAddr) (s : State) → P s → P ((send now p addr >> pure tt) s).1
  told_keeps p addr s h =
      continue_keeps P (send now p addr s) _ (send_keeps p addr s h) (λ _ _. send_keeps p addr s h)

  pub stop_request_keeps :
      (addr : SocketAddr) (v : VideoId) (s : State) → P s → P (request_stop_video now addr v s).1
  unfolding request_stop_video
  stop_request_keeps addr v s h = told_keeps (server (stop_video v)) addr s h

  best_node_keeps : (v : VideoId) (s : State) → P s → P (best_node v s).1
  best_node_keeps v s h = elim (Option-cases (select_best_node s v)) [
    | inl panics ↦ rw (panics, best_node) h
    | inr (o, chosen) ↦ rw (chosen, best_node) h
  ]

  ask_for_keeps : (v : VideoId) (o : Option SocketAddr) (s : State) → P s → P (ask_for now v o s).1
  unfolding ask_for request_start_video
  ask_for_keeps v none s h = h
  ask_for_keeps v (some addr) s h =
      let asked = told_keeps (server (request_video v)) addr s h in
      continue_keeps P (log_error (request_start_video now addr v) s) _ asked (λ _ _. asked)

  pub select_keeps : (v : VideoId) (s : State) → P s → P (select_best_server_and_request now v s).1
  unfolding select_best_server_and_request
  select_keeps v s h =
      let chosen = best_node_keeps v s h in
      continue_keeps P (best_node v s) _ chosen (λ o _. ask_for_keeps v o (best_node v s).1 chosen)

  module _
      (playing : (s : State) (m : Map VideoId PlayingVideo)
        → P s
        → P (record s { playing_videos = m })) where
    place_keeps : (v : VideoId) (o : Option SocketAddr) (s : State) → P s → P (place v o s).1
    unfolding place
    place_keeps v o s h = elim (Option-cases (get s.playing_videos v)) [
      | inl missing ↦ rw (missing, place) h
      | inr (x, found) ↦ rw (found, place) (playing s _ h)
    ]

    pub give_source_keeps : (v : VideoId) (s : State) → P s → P (give_source now v s).1
    unfolding give_source
    give_source_keeps v s h =
        let chosen = select_keeps v s h in
        continue_keeps P (select_best_server_and_request now v s) (place v) chosen
          (λ o _. place_keeps v o (select_best_server_and_request now v s).1 chosen)

    pub redirect_keeps : (v : VideoId) (s : State) → P s → P (redirect now v s).1
    unfolding redirect set_source
    redirect_keeps v s h =
        let chosen = select_keeps v s h in
        continue_keeps P (select_best_server_and_request now v s) _ chosen
          (λ o _. playing _ _ chosen)
