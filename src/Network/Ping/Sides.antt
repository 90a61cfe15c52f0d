-- ===== src/Network/Ping/Sides.antt =====
-- The steps of the exchange of a ping, each on its side (client/src/client.rs, node/src/handle.rs).
use pessi_streamer.Base.{
  ℕ, ◌+◌, ◌-◌, ◌≡◌, ◌∙◌, refl, ap, true, false, none, some, List, ◌∷◌, map, arith, nat_eq, ==_refl,
  All,
}
use pessi_streamer.Containers.{Containers, get, insert, contains_key, get-modify, get-remove}
use pessi_streamer.Common.Packet.{
  SocketAddr, addr_eq, VideoId, SystemTime, Packet, node, client, client_ping, video_list,
  VideoListPacket,
}
use pessi_streamer.Common.Effect.{ok, for_each_keeps}
use pessi_streamer.Common.Reliable.{Socket, Codec, Bytes, reliable, ack}
use pessi_streamer.Common.Reliable.Delivery.{send_reliable_sent, receive-handed}
use pessi_streamer.Common.Reliable.Outcomes.{send_reliable-Sound}
use pessi_streamer.Client.State.{
  State as ClientState, Node as ClientNode, register_ping_answer, send as client_send,
}
use pessi_streamer.Client.Handle.{
  learn_names, answered, waiting_videos, give_source, on_answer, handle_ping_answer,
}
use pessi_streamer.Client.Frame.{give_source_keeps}
use pessi_streamer.Client.Tasks.{
  ping_packet, after_ping, ping_node, packet_round as client_packet_round,
  dispatch as client_dispatch,
}
use pessi_streamer.Node.State.{State as NodeState, send as node_send}
use pessi_streamer.Node.Routing.{get_videos}
use pessi_streamer.Node.Handle.{has_unwanted, handle_client_ping, handle_packet}
use pessi_streamer.Node.Ping.{request_missing_routed, stops_none}
use pessi_streamer.Node.Tasks.{packet_round as node_packet_round, dispatch as node_dispatch}

module _ ⦃lib : Containers⦄ ⦃codec : Codec Packet⦄ where
  -- A ping that the system accepts is out, and pends from now on.
  pub ping_node_sent :
      (now : SystemTime) (addr : SocketAddr) (b : Bytes) (s : ClientState)
      → codec.serialize (reliable s.socket.sequence_number (ping_packet now s addr)) ≡ some b
      → s.socket.fate s.socket.calls ≡ true
      → ((ping_node now addr s).0 ≡ ok tt)
        × ((ping_node now addr s).1.socket.wire ≡ (addr, b) ∷ s.socket.wire)
        × ((ping_node now addr s).1.nodes ≡ s.nodes)
        × ((ping_node now addr s).1.pending_pings
            ≡ insert s.pending_pings s.ping_sequence_number (addr, now))
        × ((ping_node now addr s).1.socket.fate ≡ s.socket.fate)
  unfolding ping_node client_send after_ping
  ping_node_sent now addr b s written up =
      let (named, out, _, _) =
        send_reliable_sent now (ping_packet now s addr) addr b s.socket written up in
      let (_, _, _, fate) = send_reliable-Sound now (ping_packet now s addr) addr s.socket in
      rw named (refl, out, refl, refl, fate)

  -- The answer of a node at the time `now`.
  abbrev pub answer : SystemTime → ℕ → NodeState → SocketAddr → VideoListPacket
  answer now sequence_number s from = record {
    sequence_number = sequence_number;
    videos = get_videos s from;
    answer_creation_date = now;
  }

  handle_client_ping_lem :
      (now : SystemTime) (from : SocketAddr) (sequence_number : ℕ) (requested : List VideoId)
      (e : Bytes) (s : NodeState)
      → codec.serialize (
          reliable s.socket.sequence_number
            (client (video_list (answer now sequence_number s from))))
        ≡ some e
      → All (λ v. contains_key s.video_routes v ≡ true) requested
      → has_unwanted requested from s ≡ false
      → s.socket.fate s.socket.calls ≡ true
      → ((handle_client_ping now sequence_number requested from s).0 ≡ ok tt)
        × ((handle_client_ping now sequence_number requested from s).1.socket.wire
            ≡ (from, e) ∷ s.socket.wire)
  unfolding handle_client_ping node_send has_unwanted
  handle_client_ping_lem now from sequence_number requested e s answers routed wanted up =
      let s0 : NodeState = record s { last_pings = insert s.last_pings from now } in
      let (named, out, _, _) =
        send_reliable_sent now (client (video_list (answer now sequence_number s from))) from e
          s.socket answers up in
      rw
        (
          request_missing_routed now from requested s0 routed,
          stops_none now requested from s0 (unfold has_unwanted in wanted),
        )
        (rw named (refl, out))

  -- A node that has a route for each requested video, and no other subscription of the client,
  -- acknowledges the ping and answers it.
  pub node_answers :
      (now : SystemTime) (from : SocketAddr) (id sequence_number : ℕ) (requested : List VideoId)
      (d c e : Bytes) (s : NodeState)
      → codec.serialize (reliable id (node (client_ping sequence_number requested))) ≡ some d
      → codec.serialize (ack id) ≡ some c
      → codec.serialize (
          reliable s.socket.sequence_number
            (client (video_list (answer now sequence_number s from))))
        ≡ some e
      → All (λ v. contains_key s.video_routes v ≡ true) requested
      → has_unwanted requested from s ≡ false
      → ((n : ℕ) → s.socket.fate n ≡ true)
      → ((node_packet_round now (some (d, from)) s).0 ≡ ok tt)
        × ((node_packet_round now (some (d, from)) s).1.socket.wire
            ≡ (from, e) ∷ (from, c) ∷ s.socket.wire)
  unfolding node_packet_round node_dispatch handle_packet get_videos has_unwanted
  node_answers now from id sequence_number requested d c e s written back answers routed wanted up =
      let k : Socket = record s.socket {
        calls = s.socket.calls + 1;
        wire = (from, c) ∷ s.socket.wire;
      } in
      let t : NodeState = record s { socket = k } in
      let (done, out) =
        handle_client_ping_lem now from sequence_number requested e t answers routed wanted
          (up k.calls) in
      rw
        (receive-handed now id (node (client_ping sequence_number requested)) from d c s.socket
          written back (up s.socket.calls))
        (rw done refl, out)

  -- The known answer is registered, whatever becomes of the videos that wait.
  on_answer_registers :
      (now : SystemTime) (from : SocketAddr) (p : VideoListPacket) (saved_addr : SocketAddr)
      (start_time : SystemTime) (s : ClientState)
      → let t = (on_answer now from p (some (saved_addr, start_time)) s).1 in
        let u = answered now p.sequence_number from start_time (map (λ v. v.0) p.videos) s in
        (t.nodes ≡ u.nodes) × (t.pending_pings ≡ u.pending_pings)
  unfolding on_answer
  on_answer_registers now from p saved_addr start_time s =
      let u = answered now p.sequence_number from start_time (map (λ v. v.0) p.videos) s in
      let same : ClientState → Type 0 =
        λ t. (t.nodes ≡ u.nodes) × (t.pending_pings ≡ u.pending_pings) in
      for_each_keeps same (waiting_videos (map (λ v. v.0) p.videos) u) (give_source now)
        (λ v t h. give_source_keeps same (λ _ _ g. g) now (λ _ _ g. g) v t h) u (refl, refl)

  -- An answer to a pending ping of a known node: the node counts as connected, with the videos of
  -- the answer and the time since the ping, and the ping pends no more.
  pub client_hears :
      (now : SystemTime) (from saved_addr : SocketAddr) (id : ℕ) (p : VideoListPacket)
      (start_time : SystemTime) (e c : Bytes) (x : ClientNode) (s : ClientState)
      → codec.serialize (reliable id (client (video_list p))) ≡ some e
      → codec.serialize (ack id) ≡ some c
      → s.socket.fate s.socket.calls ≡ true
      → get s.pending_pings p.sequence_number ≡ some (saved_addr, start_time)
      → get s.nodes from ≡ some x
      → let t = (client_packet_round now (some (e, from)) s).1 in
        (get t.nodes from
          ≡ some (register_ping_answer now (now - start_time) (map (λ v. v.0) p.videos) x))
        × (get t.pending_pings p.sequence_number ≡ none)
  unfolding client_packet_round client_dispatch handle_ping_answer answered learn_names
  client_hears now from saved_addr id p start_time e c x s written back up pends known =
      let videos = map (λ v. v.0) p.videos in
      let k : Socket = record s.socket {
        calls = s.socket.calls + 1;
        wire = (from, c) ∷ s.socket.wire;
      } in
      let t : ClientState = learn_names p.videos (record s { socket = k }) in
      let (nodes, pings) = on_answer_registers now from p saved_addr start_time t in
      rw (receive-handed now id (client (video_list p)) from e c s.socket written back up) (
        rw pends (
          ap (λ m. get m from) nodes
              ∙ ground (
                arith,
                known,
                ==_refl from,
                get-modify s.nodes from (register_ping_answer now (now - start_time) videos) from,
              ),
          ap (λ m. get m p.sequence_number) pings
              ∙ ground (
                arith,
                ==_refl p.sequence_number,
                get-remove s.pending_pings p.sequence_number p.sequence_number,
              ),
        ))
