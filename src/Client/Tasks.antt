-- ===== src/Client/Tasks.antt =====
-- The tasks of client/src/client.rs, one round of each, and the runs of a client.
use pessi_streamer.Base.{
  ℕ, ◌+◌, ◌-◌, ◌*◌, ◌%◌, Bool, true, false, ◌&&◌, Option, none, some, List, [], ◌∷◌, nat_eq, retain,
  keys, ltb, map,
}
use pessi_streamer.Containers.{Containers, iter, insert, modify}
use pessi_streamer.Common.Packet.{
  SocketAddr, addr_eq, VideoId, SystemTime, Packet, video, node, server, client, client_ping,
  video_list, client_ping_interval, u64_mod,
}
use pessi_streamer.Common.Effect.{
  Outcome, ok, err, panic, blocked, Task, pure, stop, gets, update, ◌>>=◌, ◌>>◌, for_each,
}
use pessi_streamer.Common.Reliable.{Codec, Bytes, receive, retransmit}
use pessi_streamer.Client.State.{
  Node, unresponsive, is_connected, PlayingVideo, VideoPlayer, State, get_videos_playing_from_node,
  send,
}
use pessi_streamer.Client.Handle.{
  select_best_server_and_request, ui_start_playing, ui_stop_playing_id, handle_ping_answer,
  handle_video_packet,
}

abbrev pub is_overdue : SystemTime → Option SystemTime → Bool
is_overdue now none = false
is_overdue now (some last_ping) = ltb (client_ping_interval * 3) (now - last_ping)

module _ ⦃lib : Containers⦄ where
  -- A connected node whose last answer is more than three intervals ago.
  abbrev pub is_silent : SystemTime → Node → Bool
  is_silent now n = is_connected n.status && is_overdue now n.last_received_ping

  unfoldable pub silent_nodes : SystemTime → State → List SocketAddr
  silent_nodes now s = keys (retain (λ e. is_silent now e.1) (iter s.nodes))

  unfoldable pub mark_unresponsive : SocketAddr → State → State
  mark_unresponsive addr s = record s {
    nodes = modify s.nodes addr (λ n. record n { status = unresponsive });
  }

  -- `if let Some(mut video) = get_mut(&video_id) { video.source = source }`
  unfoldable pub set_source : VideoId → Option SocketAddr → State → State
  set_source video_id source s = record s {
    playing_videos = modify s.playing_videos video_id (λ v. record v { source = source });
  }

module _ ⦃lib : Containers⦄ ⦃codec : Codec Packet⦄ (now : SystemTime) where
  unfoldable pub redirect : VideoId → Task State Unit
  unfolding set_source
  redirect video_id = do
    best ← select_best_server_and_request now video_id
    update (set_source video_id best)

  unfoldable pub drop_node : SocketAddr → Task State Unit
  unfolding mark_unresponsive redirect
  drop_node addr = do
    update (mark_unresponsive addr)
    requested_videos ← gets (λ s. get_videos_playing_from_node s addr)
    for_each requested_videos redirect

  -- One round of `handle_unresponsive_pings_nodes_task`.
  unfoldable pub unresponsive_round : Task State Unit
  unfolding silent_nodes drop_node
  unresponsive_round = do silent ← gets (silent_nodes now); for_each silent drop_node

  unfoldable pub after_ping : ℕ → SocketAddr → Outcome ℕ → Task State Unit
  after_ping sequence_number addr (ok receiver) =
      update λ s. record s { pending_pings = insert s.pending_pings sequence_number (addr, now) }
  after_ping sequence_number addr (err e) = pure tt
  after_ping sequence_number addr panic = stop panic
  after_ping sequence_number addr blocked = stop blocked

  abbrev pub ping_packet : State → SocketAddr → Packet
  ping_packet s addr =
      node (client_ping s.ping_sequence_number (get_videos_playing_from_node s addr))

  unfoldable pub ping_node : SocketAddr → Task State Unit
  unfolding after_ping
  ping_node addr s =
      let sequence_number = s.ping_sequence_number in
      let t : State = record s { ping_sequence_number = (s.ping_sequence_number + 1) % u64_mod } in
      let (r, u) = send now (ping_packet s addr) addr t in after_ping sequence_number addr r u

  -- One round of `start_ping_nodes_task`.
  unfoldable pub ping_round : Task State Unit
  unfolding ping_node
  ping_round = do nodes ← gets (λ s. map (λ e. e.1.addr) (iter s.nodes)); for_each nodes ping_node

  -- What `handle_packet_task` does with the result of `receive`: it logs what it does not expect.
  unfoldable pub dispatch : Outcome (Option (Packet × SocketAddr)) → Task State Unit
  dispatch (ok none) = pure tt
  dispatch (ok (some (video p, addr))) = handle_video_packet now addr p
  dispatch (ok (some (client (video_list p), addr))) = handle_ping_answer now addr p
  dispatch (ok (some (node p, addr))) = pure tt
  dispatch (ok (some (server p, addr))) = pure tt
  dispatch (err e) = pure tt
  dispatch panic = stop panic
  dispatch blocked = stop blocked

  -- One round of `handle_packet_task`, given what `recv_from` returned.
  unfoldable pub packet_round : Option (Bytes × SocketAddr) → Task State Unit
  unfolding dispatch
  packet_round datagram s =
      let (r, k) = receive {T = Packet} now datagram s.socket in
      dispatch r (record s { socket = k })

-- What happens to a client: `recv_from` returns, a retransmission loop wakes up, a round is due, the
-- user starts or stops a video, a player ends.
pub data Event : Type 0 where
  arrives : Option (Bytes × SocketAddr) → Event
  wakes : ℕ → Event
  pings checks_nodes : Event
  starts : Bool → VideoId → Event
  stops : VideoId → Event
  closes : VideoId → Event

module _ ⦃lib : Containers⦄ ⦃codec : Codec Packet⦄ where
  unfoldable pub wake : SystemTime → ℕ → State → State
  wake now id s = record s { socket = (retransmit now id s.socket).1 }

  abbrev pub close : PlayingVideo → PlayingVideo
  close v =
      let p : VideoPlayer = record v.video_player { is_closed = true } in
      record v { video_player = p }

  unfoldable pub close_player : VideoId → State → State
  close_player video_id s = record s { playing_videos = modify s.playing_videos video_id close }

  unfoldable pub react : SystemTime → Event → Task State Unit
  unfolding wake close_player
  react now (arrives datagram) = packet_round now datagram
  react now (wakes id) = update (wake now id)
  react now pings = ping_round now
  react now checks_nodes = unresponsive_round now
  react now (starts launched video_id) = ui_start_playing now launched video_id
  react now (stops video_id) = ui_stop_playing_id now video_id
  react now (closes video_id) = update (close_player video_id)

  unfoldable pub run : List (SystemTime × Event) → State → State
  unfolding react
  run [] s = s
  run ((now, e) ∷ es) s = run es (react now e s).1
