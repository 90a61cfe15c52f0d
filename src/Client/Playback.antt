-- ===== src/Client/Playback.antt =====
-- `handle_video_packet` of client/src/client.rs: what reaches the player, and the end of a video.
use pessi_streamer.Base.{
  ℕ, ◌+◌, ◌%◌, ◌≡◌, ◌∙◌, ◌≢◌, Option-cases, inl, inr, refl, true, false, Option, none, some, List,
  [], ◌∷◌, arith, nat_eq, length, ==_refl,
}
use pessi_streamer.Containers.{Containers, Map, get, insert, remove, get-insert, get-remove}
use pessi_streamer.Common.Packet.{
  SocketAddr, addr_eq, VideoId, SystemTime, Packet, VideoPacket, video, server, stop_video,
  request_video, u64_mod,
}
use pessi_streamer.Common.Effect.{Calm, Calm-continue, logged-ok, ok, panic, for_each}
use pessi_streamer.Common.Reliable.{Codec, Bytes, unreliable, reliable, receive, on_packet}
use pessi_streamer.Common.Reliable.Delivery.{send_reliable_sent}
use pessi_streamer.Common.Reliable.Outcomes.{send_reliable-Sound}
use pessi_streamer.Server.Stream.{numbered, AreWritten}
use pessi_streamer.Client.State.{State, PlayingVideo, VideoPlayer, send, select_best_node}
use pessi_streamer.Client.Handle.{
  request_stop_video, write, on_written, play, handle_video_packet, stop_at, stop_playing,
  ui_stop_playing_id, place, give_source_during, best_node, ask_for, request_start_video,
  select_best_server_and_request,
}
use pessi_streamer.Client.Tasks.{packet_round, dispatch}
use pessi_streamer.Client.Frame.{stop_request_keeps}

-- What the player was given: the datagrams, on top of what it was given before.
unfoldable pub given : List Bytes → List Bytes → List Bytes
given [] written = written
given (d ∷ ds) written = given ds (d ∷ written)

-- The number of bytes, as the counter shows it.
unfoldable pub counted : List Bytes → ℕ → ℕ
counted [] n = n
counted (d ∷ ds) n = counted ds ((n + length d) % u64_mod)

module _ ⦃lib : Containers⦄ ⦃codec : Codec Packet⦄ (now : SystemTime) (from : SocketAddr) where
  receive_unreliable :
      (p : Packet) (b : Bytes) (s : State)
      → codec.serialize (unreliable p) ≡ some b
      → packet_round now (some (b, from)) s ≡ dispatch now (ok (some (p, from))) s
  unfolding packet_round receive on_packet
  receive_unreliable p b s written = rw (codec.read_back (unreliable p) b written, receive)

  get_inserted :
      (m : Map VideoId PlayingVideo) (v : VideoId) (x : PlayingVideo)
      → get (insert m v x) v ≡ some x
  get_inserted m v x = get-insert m v x v ∙ rw (==_refl v) refl

  play_one :
      (p : VideoPacket) (b : Bytes) (s : State) (x : PlayingVideo)
      → get s.playing_videos p.stream_id ≡ some x
      → x.video_player.is_closed ≡ false
      → codec.serialize (unreliable (video p)) ≡ some b
      → let t = (packet_round now (some (b, from)) s).1 in
        let player : VideoPlayer = record x.video_player {
          written = p.stream_data ∷ x.video_player.written;
        } in
        ((packet_round now (some (b, from)) s).0 ≡ ok tt)
        × (get t.playing_videos p.stream_id
            ≡ some (record x {
              last_sequence_number = p.sequence_number;
              bytes_written = (x.bytes_written + length p.stream_data) % u64_mod;
              video_player = player;
            }))
  unfolding dispatch handle_video_packet play write on_written
  play_one p b s x found opened written =
      rw (receive_unreliable (video p) b s written)
        (rw found (rw opened (refl, get_inserted s.playing_videos p.stream_id _)))

  -- Every datagram of a stream that the client plays reaches the player, in order, and is counted,
  -- where the player is open and the packets of the stream, which can be written, arrive in order:
  -- each round comes to its end.
  pub playback_lem :
      (id : VideoId) (ds bs : List Bytes) (n : ℕ) (s : State) (x : PlayingVideo)
      → get s.playing_videos id ≡ some x
      → x.video_player.is_closed ≡ false
      → AreWritten codec (numbered id n ds) bs
      → ((for_each bs (λ b. packet_round now (some (b, from))) s).0 ≡ ok tt)
        × ((y : PlayingVideo) × (get
                (for_each bs (λ b. packet_round now (some (b, from))) s).1.playing_videos
                id
              ≡ some y)
            × (y.video_player.written ≡ given ds x.video_player.written)
            × (y.bytes_written ≡ counted ds x.bytes_written)
            × (y.source ≡ x.source))
  unfolding given counted
  playback_lem id [] [] n s x found opened written = (refl, (x, found, refl, refl, refl))
  playback_lem id [] (b ∷ bs) n s x found opened written = absurd written
  playback_lem id (d ∷ ds) [] n s x found opened written = absurd written
  playback_lem id (d ∷ ds) (b ∷ bs) n s x found opened written =
      let p : VideoPacket = record { stream_id = id; sequence_number = n + 1; stream_data = d } in
      let (outcome, played) = play_one p b s x found opened written.0 in
      rw outcome (
        playback_lem id ds bs (n + 1) (packet_round now (some (b, from)) s).1 _ played opened
          written.1)

  -- The first packet for a closed player ends the video: the client forgets it, and, where the send
  -- is accepted, asks the sender of the packet to stop, once, reliably.
  pub closed_player_lem :
      (p : VideoPacket) (b c : Bytes) (s : State) (x : PlayingVideo)
      → get s.playing_videos p.stream_id ≡ some x
      → x.video_player.is_closed ≡ true
      → codec.serialize (unreliable (video p)) ≡ some b
      → codec.serialize (reliable s.socket.sequence_number (server (stop_video p.stream_id)))
        ≡ some c
      → s.socket.fate s.socket.calls ≡ true
      → let t = (packet_round now (some (b, from)) s).1 in
        ((packet_round now (some (b, from)) s).0 ≡ ok tt)
        × (get t.playing_videos p.stream_id ≡ none)
        × (t.socket.wire ≡ (from, c) ∷ s.socket.wire)
  unfolding dispatch handle_video_packet play write on_written request_stop_video send
  closed_player_lem p b c s x found closed written stops up =
      let (named, out, _, _) =
        send_reliable_sent now (server (stop_video p.stream_id)) from c s.socket stops up in
      rw (receive_unreliable (video p) b s written) (
        rw found (
          rw closed (
            rw named (
              refl,
              ground
                  (arith, ==_refl p.stream_id, get-remove s.playing_videos p.stream_id p.stream_id),
              out,
            ))))

module _ ⦃lib : Containers⦄ ⦃codec : Codec Packet⦄ where
  -- Once the user stopped a video, it is not played.
  stop_playing_lem :
      (now : SystemTime) (v : VideoId) (o : Option PlayingVideo) (s : State)
      → get s.playing_videos v ≡ o
      → get (stop_playing now v o s).1.playing_videos v ≡ none
  unfolding stop_playing stop_at
  stop_playing_lem now v none s found = found
  stop_playing_lem now v (some x) s found = gone x.source
    where
      removed : State
      removed = record s { playing_videos = remove s.playing_videos v }

      lost : get removed.playing_videos v ≡ none
      lost = ground (arith, ==_refl v, get-remove s.playing_videos v v)

      gone : (o : Option SocketAddr) → get (stop_at now v o removed).1.playing_videos v ≡ none
      gone none = lost
      gone (some addr) =
          stop_request_keeps (λ t. get t.playing_videos v ≡ none) (λ _ _ h. h) now addr v removed
            lost

  -- A node is selected, or none, and asked: this comes to its end.
  select-ok :
      (now : SystemTime) (v : VideoId) (best : Option SocketAddr) (s : State)
      → select_best_node s v ≡ some best
      → (select_best_server_and_request now v s).0 ≡ ok best
  unfolding select_best_server_and_request ask_for request_start_video send
  select-ok now v none s chosen = rw (chosen, best_node) refl
  select-ok now v (some addr) s chosen =
      let (sane, free, _, _) = send_reliable-Sound now (server (request_video v)) addr s.socket in
      let calm : Calm (request_start_video now addr v s).0 =
        Calm-continue (send now (server (request_video v)) addr s) _ (sane, free)
          (λ _ _. ((λ p. cc), λ p. cc)) in
      rw (chosen, best_node) (rw (logged-ok (request_start_video now addr v s).0 calm) refl)

  -- Where the user stops a video while `handle_ping_answer` awaits the request that gives it a
  -- source, and the choice of the source does not panic, the handler panics as it goes on, whatever
  -- the outcome of the request.
  pub stopped_meanwhile_panics :
      (now : SystemTime) (v : VideoId) (s : State)
      → select_best_node s v ≢ none
      → (give_source_during now (λ t. (ui_stop_playing_id now v t).1) v s).0 ≡ panic
  unfolding give_source_during place ui_stop_playing_id
  stopped_meanwhile_panics now v s sane = elim (Option-cases (select_best_node s v)) [
    | inl lost ↦ absurd (sane lost)
    | inr (best, chosen) ↦
        let t = (select_best_server_and_request now v s).1 in
        let gone = stop_playing_lem now v (get t.playing_videos v) t refl in
        rw (select-ok now v best s chosen) (rw (gone, place) refl)
  ]
