-- ===== src/Network/Request.antt =====
-- A request for a video on its way: `ui_start_playing` of client/src/client.rs,
-- `handle_request_video` of node/src/handle.rs, and `run_client_socket` of server/src/server.rs.
use pessi_streamer.Base.{ℕ, ◌+◌, ◌≡◌, ◌∙◌, refl, ap, true, none, some, ◌∷◌, nat_eq, ==_refl}
use pessi_streamer.Containers.{Containers, get, get-insert, get-modify}
use pessi_streamer.Common.Packet.{
  SocketAddr, addr_eq, VideoId, SystemTime, Packet, server, request_video,
}
use pessi_streamer.Common.Effect.{ok, logged}
use pessi_streamer.Common.Reliable.{Socket, Codec, Bytes, reliable, ack}
use pessi_streamer.Common.Reliable.Delivery.{send_reliable_sent, receive-handed}
use pessi_streamer.Client.State.{
  State as ClientState, PlayingVideo, select_best_node, send as client_send,
}
use pessi_streamer.Client.Handle.{
  new_player, best_node, start_video_process, request_start_video, ask_for,
  select_best_server_and_request, ui_start_playing,
}
use pessi_streamer.Node.State.{State as NodeState}
use pessi_streamer.Node.Routing.{get_best_node_to_redirect, get_number_of_videos_requested_via_node}
use pessi_streamer.Node.Redirect.{handle_request_video}
use pessi_streamer.Node.Subscriptions.{is_subscribed, handle_request_video_asks}
use pessi_streamer.Node.Handle.{handle_packet}
use pessi_streamer.Node.Tasks.{packet_round as node_packet_round, dispatch as node_dispatch}
use pessi_streamer.Server.State.{State as ServerState, Video, add_interested, handle_client_packet}
use pessi_streamer.Server.Tasks.{client_socket_round, dispatch as server_dispatch}

module _ ⦃lib : Containers⦄ where
  -- The video that a client plays from a node it has just asked.
  abbrev pub opened : ClientState → SocketAddr → PlayingVideo
  opened s addr = record {
    source = some addr;
    video_player = new_player s.video_player;
    last_sequence_number = 0;
    bytes_written = 0;
  }

  pub get_best-socket :
      (v : VideoId) (k : Socket) (s : NodeState)
      → get_best_node_to_redirect (record s { socket = k }) v ≡ get_best_node_to_redirect s v
  unfolding get_best_node_to_redirect get_number_of_videos_requested_via_node
  get_best-socket v k s = refl

module _ ⦃lib : Containers⦄ ⦃codec : Codec Packet⦄ (now : SystemTime) where
  client_asks :
      (v : VideoId) (addr : SocketAddr) (d : Bytes) (s : ClientState)
      → select_best_node s v ≡ some (some addr)
      → codec.serialize (reliable s.socket.sequence_number (server (request_video v))) ≡ some d
      → s.socket.fate s.socket.calls ≡ true
      → ((ui_start_playing now true v s).0 ≡ ok tt)
        × ((ui_start_playing now true v s).1.socket.wire ≡ (addr, d) ∷ s.socket.wire)
        × (get (ui_start_playing now true v s).1.playing_videos v ≡ some (opened s addr))
  unfolding ui_start_playing select_best_server_and_request ask_for request_start_video
      start_video_process client_send
  client_asks v addr d s chosen written up =
      let (named, out, _, _) =
        send_reliable_sent now (server (request_video v)) addr d s.socket written up in
      rw (chosen, best_node)
        (rw named
          (refl, out, get-insert s.playing_videos v (opened s addr) v ∙ rw (==_refl v) refl))

  node_asks :
      (v : VideoId) (from up_addr : SocketAddr) (id : ℕ) (d c e : Bytes) (s : NodeState)
      → codec.serialize (reliable id (server (request_video v))) ≡ some d
      → codec.serialize (ack id) ≡ some c
      → get s.video_routes v ≡ none
      → get_best_node_to_redirect s v ≡ some (some up_addr)
      → codec.serialize (reliable s.socket.sequence_number (server (request_video v))) ≡ some e
      → ((n : ℕ) → s.socket.fate n ≡ true)
      → let m = node_packet_round now (some (d, from)) s in
        (m.0 ≡ ok tt)
        × (m.1.socket.wire ≡ (up_addr, e) ∷ (from, c) ∷ s.socket.wire)
        × (get m.1.video_routes v ≡ some up_addr)
        × (is_subscribed m.1 v from ≡ true)
  unfolding node_packet_round node_dispatch handle_packet
  node_asks v from up_addr id d c e s written back unrouted chosen asks up =
      let k : Socket = record s.socket {
        calls = s.socket.calls + 1;
        wire = (from, c) ∷ s.socket.wire;
      } in
      let t : NodeState = record s { socket = k } in
      let same : get_best_node_to_redirect t v ≡ get_best_node_to_redirect s v =
        get_best-socket v k s in
      let (outcome, out, routes, subscribed) =
        handle_request_video_asks now v from up_addr e t v unrouted (same ∙ chosen) asks in
      let done : (handle_request_video now v from t).0 ≡ ok tt = outcome ∙ rw (up k.calls) refl in
      rw
        (receive-handed now id (server (request_video v)) from d c s.socket written back
          (up s.socket.calls))
        (
          ap logged done,
          out ∙ rw (up k.calls) refl,
          routes ∙ rw (up k.calls, ==_refl v) refl,
          subscribed,
        )

  server_lists :
      (v : VideoId) (from : SocketAddr) (id : ℕ) (d c : Bytes) (s : ServerState) (x : Video)
      → codec.serialize (reliable id (server (request_video v))) ≡ some d
      → codec.serialize (ack id) ≡ some c
      → get s.videos v ≡ some x
      → s.clients_socket.fate s.clients_socket.calls ≡ true
      → let m = client_socket_round now (some (d, from)) s in
        (m.0 ≡ ok tt)
        × (m.1.clients_socket.wire ≡ (from, c) ∷ s.clients_socket.wire)
        × (get m.1.videos v ≡ some (add_interested from x))
  unfolding client_socket_round server_dispatch handle_client_packet
  server_lists v from id d c s x written back listed up =
      rw
        (receive-handed now id (server (request_video v)) from d c s.clients_socket written back up)
        (refl, refl, get-modify s.videos v (add_interested from) v ∙ rw (==_refl v, listed) refl)

module _ ⦃lib : Containers⦄ ⦃codec : Codec Packet⦄ where
  -- A video that a user starts to play, which the client's best node has no route for while the
  -- server is the best source that this node knows: the client asks the node and opens a player for
  -- what it sends; the node acknowledges this, asks the server, counts the client among the
  -- subscribers and expects the video from the server; and the server acknowledges this and counts
  -- the node among those it streams the video to. All three come to their end. This holds where the
  -- player can be launched, the server lists the video, the packets can be written and all sends
  -- succeed.
  pub request_opens_stream :
      (t₀ t₁ t₂ : SystemTime) (v : VideoId) (a : ClientState) (b : NodeState) (srv : ServerState)
      (x : Video) (d c e f : Bytes)
      → select_best_node a v ≡ some (some b.socket.local_addr)
      → get b.video_routes v ≡ none
      → get_best_node_to_redirect b v ≡ some (some srv.clients_socket.local_addr)
      → get srv.videos v ≡ some x
      → codec.serialize (reliable a.socket.sequence_number (server (request_video v))) ≡ some d
      → codec.serialize (ack a.socket.sequence_number) ≡ some c
      → codec.serialize (reliable b.socket.sequence_number (server (request_video v))) ≡ some e
      → codec.serialize (ack b.socket.sequence_number) ≡ some f
      → ((n : ℕ) → a.socket.fate n ≡ true)
      → ((n : ℕ) → b.socket.fate n ≡ true)
      → ((n : ℕ) → srv.clients_socket.fate n ≡ true)
      → let asked = ui_start_playing t₀ true v a in
        let passed = node_packet_round t₁ (some (d, a.socket.local_addr)) b in
        let listed = client_socket_round t₂ (some (e, b.socket.local_addr)) srv in
        (asked.0 ≡ ok tt)
        × (asked.1.socket.wire ≡ (b.socket.local_addr, d) ∷ a.socket.wire)
        × (get asked.1.playing_videos v ≡ some (opened a b.socket.local_addr))
        × (passed.0 ≡ ok tt)
        × (passed.1.socket.wire
            ≡ (srv.clients_socket.local_addr, e) ∷ (a.socket.local_addr, c) ∷ b.socket.wire)
        × (get passed.1.video_routes v ≡ some srv.clients_socket.local_addr)
        × (is_subscribed passed.1 v a.socket.local_addr ≡ true)
        × (listed.0 ≡ ok tt)
        × (listed.1.clients_socket.wire ≡ (b.socket.local_addr, f) ∷ srv.clients_socket.wire)
        × (get listed.1.videos v ≡ some (add_interested b.socket.local_addr x))
  request_opens_stream t₀ t₁ t₂ v a b srv x d c e f chosen unrouted best found asks back asks' back'
        up_a up_b up_srv =
      let (asked, out, playing) =
        client_asks t₀ v b.socket.local_addr d a chosen asks (up_a a.socket.calls) in
      let (passed, out', routed, subscribed) =
        node_asks t₁ v a.socket.local_addr srv.clients_socket.local_addr a.socket.sequence_number d
          c e b asks back unrouted best asks' up_b in
      let (listed, back_out, there) =
        server_lists t₂ v b.socket.local_addr b.socket.sequence_number e f srv x asks' back' found
          (up_srv srv.clients_socket.calls) in
      (asked, out, playing, passed, out', routed, subscribed, listed, back_out, there)
