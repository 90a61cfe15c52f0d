-- ===== src/Node/Tasks.antt =====
-- The periodic tasks of node/src/node.rs, one round of each, and the program's runs: the rounds,
-- the packets and the spawned tasks that an environment orders.
use pessi_streamer.Base.{
  ℕ, ◌-◌, ◌*◌, Bool, false, ◌&&◌, Option, none, some, List, [], ◌∷◌, nat_eq, retain, keys, ltb,
}
use pessi_streamer.Containers.{Containers, iter, get}
use pessi_streamer.Common.Packet.{
  SocketAddr, addr_eq, VideoId, SystemTime, Packet, flood_packet_interval, client_ping_interval,
  video_packet_max_delay,
}
use pessi_streamer.Common.Effect.{
  Outcome, ok, err, panic, blocked, stop, pure, Task, gets, update, ◌>>=◌, log_error, for_each,
}
use pessi_streamer.Common.Reliable.{Codec, Bytes, ReliablePacketResult, receive, retransmit}
use pessi_streamer.Node.State.{
  State, RouteInfo, NodeType, parent, child, is_active, flood_result, Spawned, connecting,
}
use pessi_streamer.Node.Redirect.{
  request_video_to_node, handle_stop_video, handle_unresponsive_node, run_connecting, videos_to,
}
use pessi_streamer.Node.Handle.{mark_unresponsive, handle_packet, handle_send_flood_packet_result}

abbrev pub is_late : SystemTime → NodeType → Bool
is_late now (parent p) = ltb (flood_packet_interval * 3) (now - p.date_last_flood_packet_received)
is_late now child = false

module _ ⦃lib : Containers⦄ where
  -- An active parent that sent no flood packet for three intervals.
  abbrev pub is_silent : SystemTime → RouteInfo → Bool
  is_silent now r = is_active r.status && is_late now r.node_type

  unfoldable pub silent_parents : SystemTime → State → List SocketAddr
  silent_parents now s = keys (retain (λ e. is_silent now e.1) (iter s.available_routes))

  -- Clients whose last ping is more than three intervals ago.
  unfoldable pub silent_clients : SystemTime → State → List SocketAddr
  silent_clients now s =
      keys (retain (λ e. ltb (client_ping_interval * 3) (now - e.1)) (iter s.last_pings))

  unfoldable pub stalled_videos : SystemTime → State → List VideoId
  stalled_videos now s =
      keys (retain (λ e. ltb video_packet_max_delay (now - e.1)) (iter s.last_video_packet_time))

module _ ⦃lib : Containers⦄ ⦃codec : Codec Packet⦄ (now : SystemTime) where
  -- The second loop of `run_check_neighbours_task`; the `unwrap` panics on a missing route.
  unfoldable pub drop_neighbour : SocketAddr → Task State Unit
  unfolding mark_unresponsive
  drop_neighbour addr s = elim (get s.available_routes addr) [
    | none ↦ (panic, s)
    | some r ↦ handle_unresponsive_node now addr (mark_unresponsive addr s)
  ]

  unfoldable pub check_neighbours_round : Task State Unit
  unfolding silent_parents drop_neighbour
  check_neighbours_round = do
    unresponsive ← gets (silent_parents now)
    for_each unresponsive drop_neighbour

  unfoldable pub stop_client : SocketAddr → Task State Unit
  stop_client addr = do
    videos_playing ← gets (videos_to addr)
    for_each videos_playing (λ v. log_error (handle_stop_video now v addr))

  unfoldable pub client_health_check_round : Task State Unit
  unfolding silent_clients stop_client
  client_health_check_round = do silent ← gets (silent_clients now); for_each silent stop_client

  unfoldable pub request_again : VideoId → Task State Unit
  request_again video_id s = elim (get s.video_routes video_id) [
    | none ↦ (ok tt, s)
    | some addr ↦ request_video_to_node now video_id addr s
  ]

  -- A failed request ends the task, which ends the node.
  unfoldable pub video_health_check_round : Task State Unit
  unfolding stalled_videos request_again
  video_health_check_round = do stalled ← gets (stalled_videos now); for_each stalled request_again

-- What happens to a node: `recv_from` returns, a retransmission loop wakes up, a spawned task runs, a
-- check is due. A spawned task runs with what its channel received.
pub data Event : Type 0 where
  arrives : Option (Bytes × SocketAddr) → Event
  wakes : ℕ → Event
  finishes : Spawned → Option ReliablePacketResult → Event
  checks_neighbours checks_clients checks_videos : Event

module _ ⦃lib : Containers⦄ ⦃codec : Codec Packet⦄ where
  -- What the loop of `run_packet_task` does with the result of `receive`: it logs the errors.
  unfoldable pub dispatch : SystemTime → Outcome (Option (Packet × SocketAddr)) → Task State Unit
  dispatch now (ok (some (p, addr))) = log_error (handle_packet now p addr)
  dispatch now (ok none) = pure tt
  dispatch now (err e) = pure tt
  dispatch now panic = stop panic
  dispatch now blocked = stop blocked

  -- One round of the loop of `run_packet_task`, given what `recv_from` returned.
  unfoldable pub packet_round : SystemTime → Option (Bytes × SocketAddr) → Task State Unit
  unfolding dispatch
  packet_round now datagram s =
      let (r, k) = receive {T = Packet} now datagram s.socket in
      dispatch now r (record s { socket = k })

  -- The retransmission loop of a packet wakes up.
  unfoldable pub wake : SystemTime → ℕ → State → State
  wake now id s = record s { socket = (retransmit now id s.socket).1 }

  unfoldable pub react : SystemTime → Event → Task State Unit
  unfolding packet_round wake
  react now (arrives datagram) = packet_round now datagram
  react now (wakes id) = update (wake now id)
  react now (finishes (flood_result target sent) received) =
      handle_send_flood_packet_result now target sent received
  react now (finishes (connecting addr id) received) = update (run_connecting now addr received)
  react now checks_neighbours = check_neighbours_round now
  react now checks_clients = client_health_check_round now
  react now checks_videos = video_health_check_round now

  -- An error that a handler returns is logged by the loop that called it.
  unfoldable pub run : List (SystemTime × Event) → State → State
  unfolding react
  run [] s = s
  run ((now, e) ∷ es) s = run es (react now e s).1
