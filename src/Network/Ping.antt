-- ===== src/Network/Ping.antt =====
-- The exchange of a ping: `start_ping_nodes_task` and `handle_ping_answer` of client/src/client.rs,
-- and `handle_client_ping` of node/src/handle.rs between them.
mod Sides
use pessi_streamer.Base.{
  ℕ, ◌+◌, ◌-◌, ◌≡◌, ◌∙◌, refl, ap, true, false, none, some, List, [], ◌∷◌, map, arith, nat_eq,
  ==_refl, All,
}
use pessi_streamer.Containers.{
  push_back, Containers, get, insert, contains_key, get-insert, get-modify, get-remove,
}
use pessi_streamer.Common.Packet.{
  SocketAddr, addr_eq, VideoId, SystemTime, Packet, node, client, client_ping, video_list,
  VideoListPacket,
}
use pessi_streamer.Common.Effect.{ok, for_each, for_each_keeps}
use pessi_streamer.Common.Reliable.{Socket, Codec, Bytes, reliable, ack}
use pessi_streamer.Common.Reliable.Delivery.{send_reliable_sent, receive-handed}
use pessi_streamer.Common.Reliable.Outcomes.{send_reliable-Sound}
use pessi_streamer.Client.State.{
  State as ClientState, Node as ClientNode, register_ping_answer, connected,
  get_videos_playing_from_node, send as client_send,
}
use pessi_streamer.Client.Handle.{
  learn_names, answered, waiting_videos, give_source, on_answer, handle_ping_answer,
}
use pessi_streamer.Client.Frame.{give_source_keeps}
use pessi_streamer.Client.Tasks.{
  ping_packet, after_ping, ping_node, packet_round as client_packet_round,
  dispatch as client_dispatch,
}
use pessi_streamer.Node.State.{State as NodeState, send as node_send}
use pessi_streamer.Node.Routing.{get_videos}
use pessi_streamer.Node.Handle.{request_missing, has_unwanted, handle_client_ping, handle_packet}
use pessi_streamer.Node.Tasks.{packet_round as node_packet_round, dispatch as node_dispatch}
use pessi_streamer.Network.Ping.Sides.{answer, ping_node_sent, node_answers, client_hears}

module _ ⦃lib : Containers⦄ ⦃codec : Codec Packet⦄ where
  -- A ping of a client to a node it knows, which is answered: the client sends it, the node
  -- acknowledges it and answers with the videos that it offers to this client, and once the answer
  -- arrives the client has the node as connected, with just these videos and the time of the round
  -- trip, and the ping pends no more. This holds where the sends succeed and the packets can be
  -- written, while the node has a route for each video that the client plays from it, and no other
  -- subscription of the client.
  pub ping_connects :
      (t₀ t₁ t₂ : SystemTime) (a : ClientState) (b : NodeState) (x : ClientNode) (d c e f : Bytes)
      → get a.nodes b.socket.local_addr ≡ some x
      → codec.serialize (reliable a.socket.sequence_number (ping_packet t₀ a b.socket.local_addr))
        ≡ some d
      → codec.serialize (ack a.socket.sequence_number) ≡ some c
      → codec.serialize (
          reliable b.socket.sequence_number
            (client (video_list (answer t₁ a.ping_sequence_number b a.socket.local_addr))))
        ≡ some e
      → codec.serialize (ack b.socket.sequence_number) ≡ some f
      → ((n : ℕ) → a.socket.fate n ≡ true)
      → ((n : ℕ) → b.socket.fate n ≡ true)
      → All
          (λ v. contains_key b.video_routes v ≡ true)
          (get_videos_playing_from_node a b.socket.local_addr)
      → has_unwanted (get_videos_playing_from_node a b.socket.local_addr) a.socket.local_addr b
        ≡ false
      → let sent = ping_node t₀ b.socket.local_addr a in
        let answered = node_packet_round t₁ (some (d, a.socket.local_addr)) b in
        let heard = (client_packet_round t₂ (some (e, b.socket.local_addr)) sent.1).1 in
        (sent.0 ≡ ok tt)
        × (sent.1.socket.wire ≡ (b.socket.local_addr, d) ∷ a.socket.wire)
        × (answered.0 ≡ ok tt)
        × (answered.1.socket.wire
            ≡ (a.socket.local_addr, e) ∷ (a.socket.local_addr, c) ∷ b.socket.wire)
        × (get heard.nodes b.socket.local_addr
            ≡ some (record x {
              latest_rtts = push_back x.latest_rtts (t₂ - t₀);
              last_received_ping = some t₂;
              status = connected;
              available_videos = map (λ v. v.0) (get_videos b a.socket.local_addr);
            }))
        × (get heard.pending_pings a.ping_sequence_number ≡ none)
  unfolding register_ping_answer
  ping_connects t₀ t₁ t₂ a b x d c e f known written back answers back' up up' routed wanted =
      let addr = b.socket.local_addr in
      let from = a.socket.local_addr in
      let (sent, out, nodes, pings, fate) =
        ping_node_sent t₀ addr d a written (up a.socket.calls) in
      let (done, back_out) =
        node_answers t₁ from a.socket.sequence_number a.ping_sequence_number
          (get_videos_playing_from_node a addr) d c e b written back answers routed wanted up' in
      let (answered_by, gone) =
        client_hears t₂ addr addr b.socket.sequence_number (answer t₁ a.ping_sequence_number b from)
          t₀ e f x (ping_node t₀ addr a).1 answers back' (rw fate (up _))
          (ap (λ m. get m a.ping_sequence_number) pings
            ∙ ground (
              arith,
              ==_refl a.ping_sequence_number,
              get-insert a.pending_pings a.ping_sequence_number (addr, t₀) a.ping_sequence_number,
            ))
          (ap (λ m. get m addr) nodes ∙ known) in
      (sent, out, done, back_out, answered_by, gone)
