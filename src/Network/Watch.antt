-- ===== src/Network/Watch.antt =====
-- From a click to the picture: a request on its way to the server, and the video on its way back
-- (client/src/client.rs, node/src/handle.rs, server/src/server.rs).
use pessi_streamer.Base.{
  ℕ, ◌+◌, ◌<◌, ◌≡◌, ◌∙◌, refl, ap, true, false, none, some, List, [], ◌∷◌, arith, nat_eq, ==_refl,
  length, is_empty, contains,
}
use pessi_streamer.Containers.{Containers, get, get-insert}
use pessi_streamer.Common.Packet.{
  SocketAddr, addr_eq, VideoId, SystemTime, Packet, server, request_video, u64_mod,
}
use pessi_streamer.Common.Effect.{ok, for_each}
use pessi_streamer.Common.Subscribers.{add_subscriber, contains-add_subscriber}
use pessi_streamer.Common.Reliable.{Socket, Codec, Bytes, reliable, ack}
use pessi_streamer.Common.Reliable.Delivery.{send_reliable_sent, receive-handed}
use pessi_streamer.Common.Reliable.Outcomes.{send_reliable-Sound}
use pessi_streamer.Client.State.{State as ClientState, PlayingVideo, select_best_node}
use pessi_streamer.Client.Handle.{ui_start_playing}
use pessi_streamer.Client.Tasks.{packet_round as client_packet_round}
use pessi_streamer.Client.Playback.{given}
use pessi_streamer.Node.State.{State as NodeState, send as node_send}
use pessi_streamer.Node.Routing.{get_best_node_to_redirect}
use pessi_streamer.Node.Redirect.{request_video_to_node, subscribe}
use pessi_streamer.Node.Subscriptions.{subscribers, handle_request_video_chosen}
use pessi_streamer.Node.Handle.{handle_packet}
use pessi_streamer.Node.Tasks.{packet_round as node_packet_round, dispatch as node_dispatch}
use pessi_streamer.Server.State.{State as ServerState, Video, add_interested, handle_client_packet}
use pessi_streamer.Server.Tasks.{
  Selected, stream_loop, client_socket_round, dispatch as server_dispatch,
}
use pessi_streamer.Server.Stream.{yielded, numbered, AreWritten, broadcasts}
use pessi_streamer.Network.Request.{opened, get_best-socket, request_opens_stream}
use pessi_streamer.Network.Stream.{AtNumber, stream_reaches_viewers}

add_subscriber-filled :
    (addr : SocketAddr) (l : List SocketAddr) → is_empty (add_subscriber addr l) ≡ false
unfolding contains
add_subscriber-filled addr [] = refl
add_subscriber-filled addr (a ∷ l) = ground arith

module _ ⦃lib : Containers⦄ ⦃codec : Codec Packet⦄ (now : SystemTime) where
  server_keeps :
      (v : VideoId) (from : SocketAddr) (id : ℕ) (d c : Bytes) (s : ServerState)
      → codec.serialize (reliable id (server (request_video v))) ≡ some d
      → codec.serialize (ack id) ≡ some c
      → s.clients_socket.fate s.clients_socket.calls ≡ true
      → (client_socket_round now (some (d, from)) s).1.clients_socket.fate ≡ s.clients_socket.fate
  unfolding client_socket_round server_dispatch handle_client_packet
  server_keeps v from id d c s written back up =
      rw
        (receive-handed now id (server (request_video v)) from d c s.clients_socket written back up)
        refl

  asked_keeps :
      (v : VideoId) (node : SocketAddr) (e : Bytes) (s : NodeState)
      → codec.serialize (reliable s.socket.sequence_number (server (request_video v))) ≡ some e
      → s.socket.fate s.socket.calls ≡ true
      → let t = (request_video_to_node now v node s).1 in
        (t.interested ≡ s.interested)
        × (t.last_video_sequence_number ≡ s.last_video_sequence_number)
        × (t.socket.fate ≡ s.socket.fate)
  unfolding request_video_to_node node_send
  asked_keeps v node e s written up =
      let (named, _, _, _) =
        send_reliable_sent now (server (request_video v)) node e s.socket written up in
      let (_, _, _, fate) = send_reliable-Sound now (server (request_video v)) node s.socket in
      rw named (refl, refl, fate)

  node_keeps :
      (v : VideoId) (from up_addr : SocketAddr) (id : ℕ) (d c e : Bytes) (s : NodeState)
      → codec.serialize (reliable id (server (request_video v))) ≡ some d
      → codec.serialize (ack id) ≡ some c
      → get s.video_routes v ≡ none
      → get_best_node_to_redirect s v ≡ some (some up_addr)
      → codec.serialize (reliable s.socket.sequence_number (server (request_video v))) ≡ some e
      → ((n : ℕ) → s.socket.fate n ≡ true)
      → let t = (node_packet_round now (some (d, from)) s).1 in
        (get t.interested v ≡ some (add_subscriber from (subscribers s v)))
        × (t.last_video_sequence_number ≡ s.last_video_sequence_number)
        × (t.socket.fate ≡ s.socket.fate)
  unfolding node_packet_round node_dispatch handle_packet subscribe
  node_keeps v from up_addr id d c e s written back unrouted chosen asks up =
      let k : Socket = record s.socket {
        calls = s.socket.calls + 1;
        wire = (from, c) ∷ s.socket.wire;
      } in
      let t : NodeState = record s { socket = k } in
      let asked =
        handle_request_video_chosen now v from up_addr t unrouted
          (get_best-socket v k s ∙ chosen) in
      let (viewers, numbers, fate) =
        asked_keeps v up_addr e (subscribe v from t) asks (up k.calls) in
      rw
        (receive-handed now id (server (request_video v)) from d c s.socket written back
          (up s.socket.calls))
        (
          ap (λ m. get m.1.interested v) asked
              ∙ (ap (λ m. get m v) viewers
                  ∙ (get-insert s.interested v (add_subscriber from (subscribers s v)) v
                      ∙ rw (==_refl v) refl)),
          ap (λ m. m.1.last_video_sequence_number) asked ∙ numbers,
          ap (λ m. m.1.socket.fate) asked ∙ fate,
        )

module _ ⦃lib : Containers⦄ ⦃codec : Codec Packet⦄ where
  -- From a user's click to the picture, over one node. The client's best node has no route for the
  -- video, the server is the best source that this node knows, and it lists the video. Then the
  -- click opens a player and sends the client's request to the node; the node acknowledges it, sends
  -- its own request to the server, expects the video from there and counts the client among its
  -- subscribers; the server acknowledges that; all three come to their end; and of what the encoder's loop then receives
  -- before the encoder ends, the node is sent each datagram, the client is sent each by the node, and
  -- each is written to the player, in order. This holds where the player can be launched, all sends
  -- succeed, the packets can be written and arrive in order and without loss, the numbers do not
  -- wrap, and the node saw the server's last packet of the stream, if it saw any.
  pub click_shows_video :
      (t₀ t₁ t₂ now : SystemTime) (v : VideoId) (a : ClientState) (b : NodeState)
      (srv : ServerState) (x : Video) (d c e f : Bytes) (es : List Selected) (bs : List Bytes)
      → select_best_node a v ≡ some (some b.socket.local_addr)
      → get b.video_routes v ≡ none
      → get_best_node_to_redirect b v ≡ some (some srv.clients_socket.local_addr)
      → get srv.videos v ≡ some x
      → codec.serialize (reliable a.socket.sequence_number (server (request_video v))) ≡ some d
      → codec.serialize (ack a.socket.sequence_number) ≡ some c
      → codec.serialize (reliable b.socket.sequence_number (server (request_video v))) ≡ some e
      → codec.serialize (ack b.socket.sequence_number) ≡ some f
      → ((n : ℕ) → a.socket.fate n ≡ true)
      → ((n : ℕ) → b.socket.fate n ≡ true)
      → ((n : ℕ) → srv.clients_socket.fate n ≡ true)
      → AtNumber b v x.sequence_number
      → x.sequence_number + length (yielded es) + 1 < u64_mod
      → AreWritten codec (numbered v x.sequence_number (yielded es)) bs
      → let asked = ui_start_playing t₀ true v a in
        let passed = node_packet_round t₁ (some (d, a.socket.local_addr)) b in
        let listed = client_socket_round t₂ (some (e, b.socket.local_addr)) srv in
        let viewers = add_subscriber a.socket.local_addr (subscribers b v) in
        let from = listed.1.clients_socket.local_addr in
        let sent = stream_loop v es listed.1 in
        let relayed = for_each bs (λ m. node_packet_round now (some (m, from))) passed.1 in
        let played =
          for_each bs
            (λ m. client_packet_round now (some (m, passed.1.socket.local_addr)))
            asked.1 in
        (asked.0 ≡ ok tt)
        × (asked.1.socket.wire ≡ (b.socket.local_addr, d) ∷ a.socket.wire)
        × (passed.0 ≡ ok tt)
        × (passed.1.socket.wire
            ≡ (srv.clients_socket.local_addr, e) ∷ (a.socket.local_addr, c) ∷ b.socket.wire)
        × (get passed.1.video_routes v ≡ some srv.clients_socket.local_addr)
        × (listed.0 ≡ ok tt)
        × (listed.1.clients_socket.wire ≡ (b.socket.local_addr, f) ∷ srv.clients_socket.wire)
        × (contains viewers a.socket.local_addr ≡ true)
        × (sent.0 ≡ ok tt)
        × (sent.1.clients_socket.wire
            ≡ broadcasts bs
                (add_subscriber b.socket.local_addr x.interested)
                listed.1.clients_socket.wire)
        × (relayed.0 ≡ ok tt)
        × (relayed.1.socket.wire ≡ broadcasts bs viewers passed.1.socket.wire)
        × (played.0 ≡ ok tt)
        × ((y : PlayingVideo) × (get played.1.playing_videos v ≡ some y)
            × (y.video_player.written ≡ given (yielded es) []))
  click_shows_video t₀ t₁ t₂ now v a b srv x d c e f es bs chosen unrouted best found asks back
        asks' back' up_a up_b up_srv seen small written =
      let addr = a.socket.local_addr in
      let near = b.socket.local_addr in
      let (asked, asking, playing, passed, passing, routed, _, listed, listing, there) =
        request_opens_stream t₀ t₁ t₂ v a b srv x d c e f chosen unrouted best found asks back asks'
          back' up_a up_b up_srv in
      let (viewers, numbers, fate) =
        node_keeps t₁ v addr srv.clients_socket.local_addr a.socket.sequence_number d c e b asks
          back unrouted best asks' up_b in
      let fate' =
        server_keeps t₂ v near b.socket.sequence_number e f srv asks' back'
          (up_srv srv.clients_socket.calls) in
      let (sent, out, relayed, passed_on, played, shown) =
        stream_reaches_viewers now v es bs (client_socket_round t₂ (some (e, near)) srv).1
          (add_interested near x) (node_packet_round t₁ (some (d, addr)) b).1
          (add_subscriber addr (subscribers b v)) (ui_start_playing t₀ true v a).1 (opened a near)
          there (add_subscriber-filled near x.interested) small written (λ n. rw fate' (up_srv n))
          (rw numbers seen) viewers (λ n. rw fate (up_b n)) playing refl in
      (
        asked,
        asking,
        passed,
        passing,
        routed,
        listed,
        listing,
        contains-add_subscriber addr addr (subscribers b v) ∙ rw (==_refl addr) refl,
        sent,
        out,
        relayed,
        passed_on,
        played,
        shown,
      )
