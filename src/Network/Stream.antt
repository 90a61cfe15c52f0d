-- ===== src/Network/Stream.antt =====
-- The way of a video from the server over a node to a client's player: `start_streaming_video` of
-- server/src/server.rs, `run_packet_task` of node/src/node.rs and `handle_video_packet` of
-- node/src/handle.rs, and `handle_video_packet` of client/src/client.rs.
use pessi_streamer.Base.{
  ℕ, ◌+◌, ◌≤◌, ◌<◌, ◌≡◌, ◌⊎◌, refl, ap, ◌∙◌, inl, inr, true, false, none, some, List, [], ◌∷◌,
  arith, nat_eq, length, is_empty, ==_refl,
}
use pessi_streamer.Containers.{Containers, get, get-insert}
use pessi_streamer.Common.Packet.{
  SocketAddr, VideoId, SystemTime, Packet, VideoPacket, video, u64_mod,
}
use pessi_streamer.Common.Effect.{ok, for_each, logged}
use pessi_streamer.Common.Reliable.{Codec, Bytes, unreliable, receive, on_packet}
use pessi_streamer.Common.Reliable.Delivery.{datagrams, send_unreliable_broadcast_lem}
use pessi_streamer.Common.Reliable.Outcomes.{send_unreliable_broadcast-fate}
use pessi_streamer.Server.State.{State as ServerState, Video}
use pessi_streamer.Server.Tasks.{Selected, stream_loop}
use pessi_streamer.Server.Stream.{
  yielded, stream_loop_lem, numbered, AreWritten, broadcasts, stream_datagrams_lem,
}
use pessi_streamer.Client.State.{State as ClientState, PlayingVideo}
use pessi_streamer.Client.Playback.{given, playback_lem}
use pessi_streamer.Client.Tasks.{packet_round as client_packet_round}
use pessi_streamer.Node.State.{State as NodeState}
use pessi_streamer.Node.Handle.{broadcast, note_video_packet, handle_packet}
use pessi_streamer.Node.Video.{expected, handle_video_packet_passes}
use pessi_streamer.Node.Tasks.{packet_round, dispatch}

module _ ⦃lib : Containers⦄ where
  -- The node expects the packet after number `n`, or saw no packet of the stream.
  abbrev pub AtNumber : NodeState → VideoId → ℕ → Type 0
  AtNumber s id n =
      (get s.last_video_sequence_number id ≡ some n) ⊎ (get s.last_video_sequence_number id ≡ none)

module _ ⦃lib : Containers⦄ ⦃codec : Codec Packet⦄ (now : SystemTime) (from : SocketAddr) where
  pub receive_unreliable :
      (p : Packet) (b : Bytes) (s : NodeState)
      → codec.serialize (unreliable p) ≡ some b
      → packet_round now (some (b, from)) s ≡ dispatch now (ok (some (p, from))) s
  unfolding packet_round receive on_packet
  receive_unreliable p b s written = rw (codec.read_back (unreliable p) b written, receive)

  expected-le :
      (s : NodeState) (p : VideoPacket) (n : ℕ)
      → AtNumber s p.stream_id n
      → p.sequence_number ≡ n + 1
      → n + 2 < u64_mod
      → p.sequence_number ≤ expected now s p
  expected-le s p n (inl e) next small = ground (arith, e)
  expected-le s p n (inr e) next small = ground (arith, e)

  node_one :
      (p : VideoPacket) (n : ℕ) (b : Bytes) (s : NodeState) (viewers : List SocketAddr)
      → AtNumber s p.stream_id n
      → p.sequence_number ≡ n + 1
      → n + 2 < u64_mod
      → get s.interested p.stream_id ≡ some viewers
      → codec.serialize (unreliable (video p)) ≡ some b
      → ((c : ℕ) → s.socket.fate c ≡ true)
      → let t = (packet_round now (some (b, from)) s).1 in
        ((packet_round now (some (b, from)) s).0 ≡ ok tt)
        × (t.socket.wire ≡ datagrams b viewers s.socket.wire)
        × (t.interested ≡ s.interested)
        × (get t.last_video_sequence_number p.stream_id ≡ some (n + 1))
        × (t.socket.fate ≡ s.socket.fate)
  unfolding dispatch handle_packet note_video_packet broadcast
  node_one p n b s viewers at next small wanted written up =
      let whole = receive_unreliable (video p) b s written in
      let passes =
        handle_video_packet_passes now p s (expected-le s p n at next small)
        ∙ ap (λ o. broadcast now p o (note_video_packet now p s)) wanted in
      let (outcome, out) = send_unreliable_broadcast_lem (video p) viewers b s.socket written up in
      (
        ap (λ m. m.0) whole ∙ ap (λ m. logged m.0) passes ∙ ap logged outcome,
        ap (λ m. m.1.socket.wire) whole ∙ ap (λ m. m.1.socket.wire) passes ∙ out,
        ap (λ m. m.1.interested) whole ∙ ap (λ m. m.1.interested) passes,
        ap (λ m. get m.1.last_video_sequence_number p.stream_id) whole
            ∙ ap (λ m. get m.1.last_video_sequence_number p.stream_id) passes
            ∙ ground (
              arith,
              next,
              ==_refl p.stream_id,
              get-insert s.last_video_sequence_number p.stream_id p.sequence_number p.stream_id,
            ),
        ap (λ m. m.1.socket.fate) whole
            ∙ ap (λ m. m.1.socket.fate) passes
            ∙ send_unreliable_broadcast-fate (video p) viewers s.socket,
      )

  node_relays :
      (id : VideoId) (ds bs : List Bytes) (n : ℕ) (s : NodeState) (viewers : List SocketAddr)
      → AtNumber s id n
      → n + length ds + 1 < u64_mod
      → get s.interested id ≡ some viewers
      → AreWritten codec (numbered id n ds) bs
      → ((c : ℕ) → s.socket.fate c ≡ true)
      → ((for_each bs (λ b. packet_round now (some (b, from))) s).0 ≡ ok tt)
        × ((for_each bs (λ b. packet_round now (some (b, from))) s).1.socket.wire
            ≡ broadcasts bs viewers s.socket.wire)
  node_relays id [] [] n s viewers at small wanted written up = (refl, refl)
  node_relays id [] (b ∷ bs) n s viewers at small wanted written up = absurd written
  node_relays id (d ∷ ds) [] n s viewers at small wanted written up = absurd written
  node_relays id (d ∷ ds) (b ∷ bs) n s viewers at small wanted written up =
      let p : VideoPacket = record { stream_id = id; sequence_number = n + 1; stream_data = d } in
      let (outcome, out, same, last, fate) =
        node_one p n b s viewers at refl (omega arith) wanted written.0 up in
      let (done, sent) =
        node_relays id ds bs (n + 1) (packet_round now (some (b, from)) s).1 viewers (inl last)
          (omega arith) (rw same wanted) written.1 (λ c. rw fate (up c)) in
      rw outcome (done, sent ∙ ap (broadcasts bs viewers) out)

module _ ⦃lib : Containers⦄ ⦃codec : Codec Packet⦄ where
  -- A video on its way from the server over a node to a player: every subscriber of the server is
  -- sent each datagram that the encoder's loop receives before the encoder ends, in order; a node that receives these datagrams from the
  -- server, in order and without loss, sends the same bytes on to each of its own subscribers, in
  -- order; and a client that receives them from the node, likewise, and plays the video has each of
  -- the encoder's datagrams written to its player, in order. All three come to their end. This holds
  -- where the server lists the video with a subscriber, all sends succeed, the packets can be
  -- written, the numbers do not wrap, the node saw the server's last packet of the stream or none at
  -- all, and the player is open.
  pub stream_reaches_viewers :
      (now : SystemTime) (id : VideoId) (es : List Selected) (bs : List Bytes) (srv : ServerState)
      (v : Video) (n : NodeState) (viewers : List SocketAddr) (c : ClientState) (x : PlayingVideo)
      → get srv.videos id ≡ some v
      → is_empty v.interested ≡ false
      → v.sequence_number + length (yielded es) + 1 < u64_mod
      → AreWritten codec (numbered id v.sequence_number (yielded es)) bs
      → ((k : ℕ) → srv.clients_socket.fate k ≡ true)
      → AtNumber n id v.sequence_number
      → get n.interested id ≡ some viewers
      → ((k : ℕ) → n.socket.fate k ≡ true)
      → get c.playing_videos id ≡ some x
      → x.video_player.is_closed ≡ false
      → let ds = yielded es in
        let sent = stream_loop id es srv in
        let relayed =
          for_each bs (λ b. packet_round now (some (b, srv.clients_socket.local_addr))) n in
        let played = for_each bs (λ b. client_packet_round now (some (b, n.socket.local_addr))) c in
        (sent.0 ≡ ok tt)
        × (sent.1.clients_socket.wire ≡ broadcasts bs v.interested srv.clients_socket.wire)
        × (relayed.0 ≡ ok tt)
        × (relayed.1.socket.wire ≡ broadcasts bs viewers n.socket.wire)
        × (played.0 ≡ ok tt)
        × ((y : PlayingVideo) × (get played.1.playing_videos id ≡ some y)
            × (y.video_player.written ≡ given ds x.video_player.written))
  stream_reaches_viewers now id es bs srv v n viewers c x found some_one small written up at wanted
        up' playing opened =
      let ds = yielded es in
      let run = stream_loop_lem id es srv in
      let (sent, out, _) =
        stream_datagrams_lem id ds bs srv v found some_one (omega arith) written up in
      let (passed, relayed) =
        node_relays now srv.clients_socket.local_addr id ds bs v.sequence_number n viewers at small
          wanted written up' in
      let (heard, (y, there, shown, _, _)) =
        playback_lem now n.socket.local_addr id ds bs v.sequence_number c x playing opened
          written in
      (
        ap (λ m. m.0) run ∙ sent,
        ap (λ m. m.1.clients_socket.wire) run ∙ out,
        passed,
        relayed,
        heard,
        (y, there, shown),
      )
