-- ===== src/Node/Handle.antt =====
-- node/src/handle.rs: the handlers of the packets, and `handle_packet` of node/src/node.rs.
use Prim.Native.String.{String}
use Prim.Native.Nat.{compare, Ordering}
use mathlib.Core.List.{foldl}
use pessi_streamer.Base.{
  ℕ, ◌+◌, ◌%◌, Bool, ◌&&◌, Option, none, some, List, [], ◌∷◌, ◌++◌, ◌==◌, nat_eq, not, any, retain,
  contains, map, unwrap_or, if◌then◌else◌,
}
use pessi_streamer.Containers.{Containers, iter, get, insert, modify, contains_key}
use pessi_streamer.Common.Packet.{
  SocketAddr, addr_eq, VideoId, SystemTime, server_port, u64_mod, Packet, VideoPacket, FloodPacket,
  video, node, server, client, client_ping, new_neighbour, flood, request_video, stop_video,
  video_list,
}
use pessi_streamer.Common.Effect.{
  Outcome, io_error, unexpected_packet, ok, err, panic, blocked, Task, pure, raise, stop, gets,
  update, ◌>>=◌, ◌>>◌, for_each,
}
use pessi_streamer.Common.Reliable.{
  Codec, ReliablePacketResult, acknowledged, timeout, send_unreliable_broadcast,
}
use pessi_streamer.Node.State.{
  State, unresponsive, is_active, default_route, update_from_flood_packet, flood_result, send,
}
use pessi_streamer.Node.Routing.{get_videos, get_parents}
use pessi_streamer.Node.Redirect.{
  register_new_neighbour, handle_request_video, handle_stop_video, check_pending_videos,
  handle_unresponsive_node,
}

module _ ⦃lib : Containers⦄ where
  unfoldable pub learn_names : List (VideoId × String) → State → State
  learn_names videos s = record s {
    video_names = foldl (λ m v. insert m v.0 v.1) s.video_names videos;
  }

  unfoldable pub update_route : SystemTime → SocketAddr → FloodPacket → State → State
  unfolding update_from_flood_packet
  update_route now from p s = record s {
    available_routes =
        insert s.available_routes from
          (update_from_flood_packet now p (unwrap_or (get s.available_routes from) default_route));
  }

  unfoldable pub broadcast_targets : SocketAddr → State → List SocketAddr
  broadcast_targets from s =
      retain (λ a. not (a == from))
        (map (λ ip. record { ip = ip; port = server_port }) s.neighbours)

  -- The packet that is passed on to `to`.
  unfoldable pub relayed : FloodPacket → SocketAddr → State → FloodPacket
  relayed p to s = record p {
    my_parents = get_parents s;
    visited_nodes = p.visited_nodes ++ s.id ∷ [];
    videos_available = get_videos s to;
  }

  unfoldable pub mark_unresponsive : SocketAddr → State → State
  mark_unresponsive addr s = record s {
    available_routes = modify s.available_routes addr (λ r. record r { status = unresponsive });
  }

  -- Some video that `addr` is subscribed to is not among the requested ones.
  unfoldable pub has_unwanted : List VideoId → SocketAddr → State → Bool
  has_unwanted requested addr s =
      any (λ e. not (contains requested e.0) && contains e.1 addr) (iter s.interested)

module _ ⦃lib : Containers⦄ ⦃codec : Codec Packet⦄ (now : SystemTime) where
  unfoldable pub request_missing : SocketAddr → VideoId → Task State Unit
  unfolding handle_request_video
  request_missing addr video_id = do
    routed ← gets (λ s. contains_key s.video_routes video_id)
    if routed then pure tt else handle_request_video now video_id addr

  -- `get_mut(&video_id)` on the map of the subscribers, at the start of `m`, while a reference to the
  -- entry of `held` is held: a reference to the same entry waits until that one is dropped.
  unfoldable pub while_held : VideoId → VideoId → Task State Unit → Task State Unit
  while_held held video_id m = if held == video_id then stop blocked else m

  -- One round of the loop over `interested`, which holds a reference to its entry meanwhile.
  unfoldable pub stop_unwanted :
      List VideoId → SocketAddr → VideoId × List SocketAddr → Task State Unit
  unfolding while_held handle_stop_video
  stop_unwanted requested addr (video_id, interested) =
      if not (contains requested video_id) && contains interested addr
      then while_held video_id video_id (handle_stop_video now video_id addr)
      else pure tt

  unfoldable pub handle_client_ping : ℕ → List VideoId → SocketAddr → Task State Unit
  unfolding request_missing stop_unwanted
  handle_client_ping sequence_number requested addr = do
    videos ← gets (λ s. get_videos s addr)
    update (λ s. record s { last_pings = insert s.last_pings addr now })
    for_each requested (request_missing addr)
    entries ← gets (λ s. iter s.interested)
    for_each entries (stop_unwanted requested addr)
    send now
        (client (
          video_list (record {
            sequence_number = sequence_number;
            videos = videos;
            answer_creation_date = now;
          })))
        addr
    pure tt

  -- The result of the send goes to a task of its own.
  unfoldable pub send_flood : FloodPacket → SocketAddr → Task State Unit
  unfolding relayed
  send_flood p to s =
      let (r, s') = send now (node (flood (relayed p to s))) to s in
      (ok tt, record s' { spawned = flood_result to r ∷ s'.spawned })

  unfoldable pub handle_flood_packet : SocketAddr → FloodPacket → Task State Unit
  unfolding learn_names update_route check_pending_videos broadcast_targets send_flood
  handle_flood_packet from p = do
    id ← gets (λ s. s.id)
    if contains p.visited_nodes id then pure tt else do
      update (learn_names p.videos_available)
      update (update_route now from p)
      check_pending_videos now from p.videos_available
      targets ← gets (broadcast_targets from)
      for_each targets (send_flood p)

  unfoldable pub no_answer : SocketAddr → Task State Unit
  unfolding mark_unresponsive handle_unresponsive_node
  no_answer target s = elim (get s.available_routes target) [
    | none ↦ (ok tt, s)
    | some r ↦
        if is_active r.status
        then handle_unresponsive_node now target (mark_unresponsive target s)
        else (ok tt, s)
  ]

  -- `handle_send_flood_packet_result`: the outcome of the send and, where it was sent, what came
  -- over the channel; `none` is a channel that was dropped.
  unfoldable pub handle_send_flood_packet_result :
      SocketAddr → Outcome ℕ → Option ReliablePacketResult → Task State Unit
  unfolding no_answer
  handle_send_flood_packet_result target (err io_error) received = no_answer target
  handle_send_flood_packet_result target (err e) received = pure tt
  handle_send_flood_packet_result target (ok id) (some timeout) = no_answer target
  handle_send_flood_packet_result target (ok id) (some (acknowledged d)) = pure tt
  handle_send_flood_packet_result target (ok id) none = pure tt
  handle_send_flood_packet_result target panic received = stop panic
  handle_send_flood_packet_result target blocked received = stop blocked

  -- `send_unreliable_broadcast` to the subscribers.
  unfoldable pub broadcast : VideoPacket → Option (List SocketAddr) → Task State Unit
  broadcast p none s = (ok tt, s)
  broadcast p (some subscribers) s =
      let (r, k) = send_unreliable_broadcast (video p) subscribers s.socket in
      (r, record s { socket = k })

  unfoldable pub note_video_packet : VideoPacket → State → State
  note_video_packet p s = record s {
    last_video_sequence_number = insert s.last_video_sequence_number p.stream_id p.sequence_number;
    last_video_packet_time = insert s.last_video_packet_time p.stream_id now;
  }

  unfoldable pub forward_video : Ordering → VideoPacket → Task State Unit
  unfolding broadcast
  forward_video Ordering.lt p s = (ok tt, s)
  forward_video Ordering.gt p s = broadcast p (get s.interested p.stream_id) s
  forward_video Ordering.eq p s = broadcast p (get s.interested p.stream_id) s

  -- `expected.cmp(&sequence_number)` decides: where it is `Less`, the packet goes no further.
  unfoldable pub handle_video_packet : VideoPacket → Task State Unit
  unfolding note_video_packet forward_video
  handle_video_packet p = do
    last ← gets (λ s. unwrap_or (get s.last_video_sequence_number p.stream_id) p.sequence_number)
    update (note_video_packet p)
    forward_video (compare ((last + 1) % u64_mod) p.sequence_number) p

  unfoldable pub handle_packet : Packet → SocketAddr → Task State Unit
  unfolding handle_client_ping handle_flood_packet handle_request_video handle_stop_video
      handle_video_packet register_new_neighbour
  handle_packet (node (client_ping sequence_number requested)) addr =
      handle_client_ping sequence_number requested addr
  handle_packet (node (flood p)) addr = handle_flood_packet addr p
  handle_packet (node new_neighbour) addr = update (register_new_neighbour addr.ip)
  handle_packet (server (request_video video_id)) addr = handle_request_video now video_id addr
  handle_packet (server (stop_video video_id)) addr = handle_stop_video now video_id addr
  handle_packet (video p) addr = handle_video_packet p
  handle_packet (client p) addr = raise unexpected_packet
