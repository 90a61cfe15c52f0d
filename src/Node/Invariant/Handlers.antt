-- ===== src/Node/Invariant/Handlers.antt =====
-- The handlers of handle.rs keep the tables valid, and do not panic.
use pessi_streamer.Base.{
  not, ◌&&◌, ◌==◌, ℕ, ◌≢◌, refl, inl, inr, Option, none, some, List, nat_eq, contains, Option-cases,
}
use pessi_streamer.Containers.{iter, Containers, get, insert, contains_key}
use pessi_streamer.Common.Packet.{
  SocketAddr, addr_eq, VideoId, SystemTime, Packet, VideoPacket, FloodPacket, node, server, client,
  video, client_ping, new_neighbour, flood, request_video, stop_video,
}
use pessi_streamer.Common.Effect.{
  Outcome, ok, err, panic, blocked, io_error, bincode_error, unexpected_packet, pure, stop,
  for_each, Sound, Sound-continue, Sound-for_each,
}
use pessi_streamer.Common.Reliable.{Codec, ReliablePacketResult, acknowledged, timeout}
use pessi_streamer.Common.Reliable.Outcomes.{send_unreliable_broadcast-ne-panic}
use Prim.Native.Nat.{Ordering}
use pessi_streamer.Node.State.{State, send, is_active}
use pessi_streamer.Node.Redirect.{
  check_pending_videos, handle_stop_video, handle_unresponsive_node, register_new_neighbour,
}
use pessi_streamer.Node.Handle.{
  update_route, mark_unresponsive, request_missing, while_held, stop_unwanted, handle_client_ping,
  send_flood, handle_flood_packet, no_answer, handle_send_flood_packet_result, broadcast,
  note_video_packet, forward_video, handle_video_packet, handle_packet, learn_names,
  broadcast_targets,
}
use pessi_streamer.Node.Invariant.{
  IsValid, IsValid-frame, update_route-IsValid, mark_unresponsive-IsValid, send-Sound, pure-Sound,
  if-Sound, choice-Sound,
}
use pessi_streamer.Node.Invariant.Requests.{
  handle_request_video-Sound, handle_stop_video-Sound, handle_unresponsive_node-Sound,
  check_pending_videos-Sound,
}

module _ ⦃lib : Containers⦄ ⦃codec : Codec Packet⦄ (now : SystemTime) where
  send_flood-Sound :
      (p : FloodPacket) (to : SocketAddr) (s : State)
      → IsValid s
      → Sound IsValid (send_flood now p to s)
  unfolding send_flood
  send_flood-Sound p to s valid =
      ((λ e. cc), IsValid-frame (send now _ to s).1 _ refl refl (send-Sound now _ to s valid).1)

  pub handle_flood_packet-Sound :
      (from : SocketAddr) (p : FloodPacket) (s : State)
      → IsValid s
      → Sound IsValid (handle_flood_packet now from p s)
  unfolding handle_flood_packet
  handle_flood_packet-Sound from p s valid =
      let t = update_route now from p (learn_names p.videos_available s) in
      if-Sound now (contains p.visited_nodes s.id) (pure tt) _ s (pure-Sound now tt s valid) (
        Sound-continue IsValid (check_pending_videos now from p.videos_available t) _
          (check_pending_videos-Sound now from p.videos_available t (
            update_route-IsValid now from p (learn_names p.videos_available s)
              (unfold learn_names in IsValid-frame s _ refl refl valid)))
          λ _ u h.
            Sound-for_each IsValid (broadcast_targets from u) (send_flood now p)
              (λ to _ w h'. send_flood-Sound p to w h') u h)

  stop_unwanted-Sound :
      (requested : List VideoId) (addr : SocketAddr) (e : VideoId × List SocketAddr) (s : State)
      → IsValid s
      → Sound IsValid (stop_unwanted now requested addr e s)
  unfolding stop_unwanted while_held
  stop_unwanted-Sound requested addr (v, interested) s h =
      if-Sound now (not (contains requested v) && contains interested addr)
        (while_held now v v (handle_stop_video now v addr)) (pure tt) s
        (if-Sound now (v == v) (stop blocked) (handle_stop_video now v addr) s ((λ e. cc), h)
          (handle_stop_video-Sound now v addr s h))
        (pure-Sound now tt s h)

  pub handle_client_ping-Sound :
      (sequence_number : ℕ) (requested : List VideoId) (addr : SocketAddr) (s : State)
      → IsValid s
      → Sound IsValid (handle_client_ping now sequence_number requested addr s)
  unfolding handle_client_ping request_missing
  handle_client_ping-Sound sequence_number requested addr s valid =
      Sound-continue IsValid (for_each requested (request_missing now addr) (pinged s)) _
        (Sound-for_each IsValid requested (request_missing now addr)
          (λ v _ t h.
            if-Sound now (contains_key t.video_routes v) (pure tt) _ t (pure-Sound now tt t h)
              (handle_request_video-Sound now v addr t h))
          (pinged s) (IsValid-frame s _ refl refl valid))
        λ _ t h.
          Sound-continue IsValid (for_each (iter t.interested) (stop_unwanted now requested addr) t)
            _
            (Sound-for_each IsValid (iter t.interested) (stop_unwanted now requested addr)
              (λ e _ w g. stop_unwanted-Sound requested addr e w g) t h)
            λ _ u h'.
              Sound-continue IsValid (send now _ addr u) _ (send-Sound now _ addr u h')
                λ _ w h''. pure-Sound now tt w h''
    where
      pinged : State → State
      pinged s = record s { last_pings = insert s.last_pings addr now }

  no_answer-Sound :
      (target : SocketAddr) (s : State) → IsValid s → Sound IsValid (no_answer now target s)
  unfolding no_answer
  no_answer-Sound target s valid = elim (Option-cases (get s.available_routes target)) [
    | inl missing ↦ rw (missing, no_answer) (pure-Sound now tt s valid)
    | inr (r, known) ↦
        rw (known, no_answer)
          (choice-Sound now (is_active r.status)
            (handle_unresponsive_node now target (mark_unresponsive target s)) (ok tt, s)
            (handle_unresponsive_node-Sound now target (mark_unresponsive target s)
              (mark_unresponsive-IsValid target s valid))
            (pure-Sound now tt s valid))
  ]

  -- The outcome of a send is no panic, so neither is that of the task that waits for its answer.
  pub handle_send_flood_packet_result-Sound :
      (target : SocketAddr) (sent : Outcome ℕ) (received : Option ReliablePacketResult) (s : State)
      → sent ≢ panic
      → IsValid s
      → Sound IsValid (handle_send_flood_packet_result now target sent received s)
  unfolding handle_send_flood_packet_result
  handle_send_flood_packet_result-Sound target (err io_error) received s sane valid =
      no_answer-Sound target s valid
  handle_send_flood_packet_result-Sound target (err bincode_error) received s sane valid =
      pure-Sound now tt s valid
  handle_send_flood_packet_result-Sound target (err unexpected_packet) received s sane valid =
      pure-Sound now tt s valid
  handle_send_flood_packet_result-Sound target (ok id) (some timeout) s sane valid =
      no_answer-Sound target s valid
  handle_send_flood_packet_result-Sound target (ok id) (some (acknowledged d)) s sane valid =
      pure-Sound now tt s valid
  handle_send_flood_packet_result-Sound target (ok id) none s sane valid = pure-Sound now tt s valid
  handle_send_flood_packet_result-Sound target panic received s sane valid = absurd (sane refl)
  handle_send_flood_packet_result-Sound target blocked received s sane valid = ((λ e. cc), valid)

  broadcast-Sound :
      (p : VideoPacket) (o : Option (List SocketAddr)) (s : State)
      → IsValid s
      → Sound IsValid (broadcast now p o s)
  unfolding broadcast
  broadcast-Sound p none s valid = pure-Sound now tt s valid
  broadcast-Sound p (some subscribers) s valid = (
    send_unreliable_broadcast-ne-panic (video p) subscribers s.socket,
    IsValid-frame s _ refl refl valid,
  )

  forward_video-Sound :
      (o : Ordering) (p : VideoPacket) (s : State)
      → IsValid s
      → Sound IsValid (forward_video now o p s)
  unfolding forward_video
  forward_video-Sound Ordering.lt p s valid = pure-Sound now tt s valid
  forward_video-Sound Ordering.gt p s valid =
      broadcast-Sound p (get s.interested p.stream_id) s valid
  forward_video-Sound Ordering.eq p s valid =
      broadcast-Sound p (get s.interested p.stream_id) s valid

  handle_video_packet-Sound :
      (p : VideoPacket) (s : State) → IsValid s → Sound IsValid (handle_video_packet now p s)
  unfolding handle_video_packet note_video_packet
  handle_video_packet-Sound p s valid =
      forward_video-Sound _ p _ (IsValid-frame s _ refl refl valid)

  pub handle_packet-Sound :
      (p : Packet) (addr : SocketAddr) (s : State)
      → IsValid s
      → Sound IsValid (handle_packet now p addr s)
  unfolding handle_packet register_new_neighbour
  handle_packet-Sound (node (client_ping n requested)) addr s valid =
      handle_client_ping-Sound n requested addr s valid
  handle_packet-Sound (node (flood p)) addr s valid = handle_flood_packet-Sound addr p s valid
  handle_packet-Sound (node new_neighbour) addr s valid =
      ((λ e. cc), IsValid-frame s _ refl refl valid)
  handle_packet-Sound (server (request_video v)) addr s valid =
      handle_request_video-Sound now v addr s valid
  handle_packet-Sound (server (stop_video v)) addr s valid =
      handle_stop_video-Sound now v addr s valid
  handle_packet-Sound (video p) addr s valid = handle_video_packet-Sound p s valid
  handle_packet-Sound (client p) addr s valid = ((λ e. cc), valid)
