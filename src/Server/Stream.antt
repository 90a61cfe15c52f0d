-- ===== src/Server/Stream.antt =====
-- What the subscribers of a video are sent while the encoder yields datagrams
-- (server/src/server.rs).
use pessi_streamer.Base.{
  ℕ, ◌+◌, ◌%◌, ◌<◌, ◌≡◌, refl, ap, ◌∙◌, true, false, some, List, [], ◌∷◌, arith, nat_eq, length,
  is_empty, ==_refl, if◌then◌else◌,
}
use pessi_streamer.Containers.{Containers, get, insert, get-insert}
use pessi_streamer.Common.Packet.{SocketAddr, VideoId, Packet, VideoPacket, video, u64_mod}
use pessi_streamer.Common.Effect.{
  Outcome, ok, err, panic, blocked, Task, pure, continue, for_each, logged,
}
use pessi_streamer.Common.Reliable.{Codec, Bytes, unreliable, send_unreliable_broadcast}
use pessi_streamer.Common.Reliable.Delivery.{datagrams, send_unreliable_broadcast_lem}
use pessi_streamer.Common.Reliable.Outcomes.{send_unreliable_broadcast-fate}
use pessi_streamer.Server.State.{State, Video}
use pessi_streamer.Server.Tasks.{
  video_packet, stream_datagram, stream_to, Selected, ended, fails, received, stream_round,
  stream_loop,
}

-- The packets of a stream, numbered from `n + 1` on.
abbrev pub numbered : VideoId → ℕ → List Bytes → List VideoPacket
numbered id n [] = []
numbered id n (d ∷ ds) =
    record { stream_id = id; sequence_number = n + 1; stream_data = d } ∷ numbered id (n + 1) ds

-- `bs` is what the codec writes for the packets.
abbrev pub AreWritten : Codec Packet → List VideoPacket → List Bytes → Type 0
AreWritten codec [] [] = Unit
AreWritten codec [] (b ∷ bs) = ⊥
AreWritten codec (p ∷ ps) [] = ⊥
AreWritten codec (p ∷ ps) (b ∷ bs) =
    (codec.serialize (unreliable (video p)) ≡ some b) × AreWritten codec ps bs

-- One broadcast after another, on top of what was sent before.
abbrev pub broadcasts :
    List Bytes → List SocketAddr → List (SocketAddr × Bytes) → List (SocketAddr × Bytes)
broadcasts [] addrs wire = wire
broadcasts (b ∷ bs) addrs wire = broadcasts bs addrs (datagrams b addrs wire)

module _ ⦃lib : Containers⦄ ⦃codec : Codec Packet⦄ where
  -- The video after a datagram.
  abbrev next : Video → Video
  next v = record v { sequence_number = v.sequence_number + 1 }

  stream_to_subscribers :
      (id : VideoId) (d : Bytes) (s : State) (v : Video)
      → get s.videos id ≡ some v
      → is_empty v.interested ≡ false
      → let m =
          send_unreliable_broadcast (video (video_packet id v d)) v.interested s.clients_socket in
        stream_datagram id d s ≡ (
          logged m.0,
          record s {
            clients_socket = m.1;
            videos =
                insert s.videos id
                  (record v { sequence_number = (v.sequence_number + 1) % u64_mod });
          },
        )
  unfolding stream_datagram stream_to
  stream_to_subscribers id d s v found some_one = ap (λ o. stream_to id d o s) found ∙ rw some_one

  stream_one :
      (id : VideoId) (d b : Bytes) (s : State) (v : Video)
      → get s.videos id ≡ some v
      → is_empty v.interested ≡ false
      → v.sequence_number + 1 < u64_mod
      → codec.serialize (
          unreliable (
            video (record {
              stream_id = id;
              sequence_number = v.sequence_number + 1;
              stream_data = d;
            })))
        ≡ some b
      → ((c : ℕ) → s.clients_socket.fate c ≡ true)
      → let t = (stream_datagram id d s).1 in
        ((stream_datagram id d s).0 ≡ ok tt)
        × (t.clients_socket.wire ≡ datagrams b v.interested s.clients_socket.wire)
        × (get t.videos id ≡ some (next v))
        × (t.clients_socket.fate ≡ s.clients_socket.fate)
  stream_one id d b s v found some_one small written up =
      let whole : (v.sequence_number + 1) % u64_mod ≡ v.sequence_number + 1 = omega arith in
      let streamed = stream_to_subscribers id d s v found some_one in
      let (outcome, out) =
        send_unreliable_broadcast_lem (video (video_packet id v d)) v.interested b s.clients_socket
          (ap
              (λ n. codec.serialize (
                unreliable
                  (video (record { stream_id = id; sequence_number = n; stream_data = d }))))
              whole
            ∙ written)
          up in
      (
        ap (λ m. m.0) streamed ∙ ap logged outcome,
        ap (λ m. m.1.clients_socket.wire) streamed ∙ out,
        ap (λ m. get m.1.videos id) streamed
            ∙ ground (
              arith,
              get-insert s.videos id
                  (record v { sequence_number = (v.sequence_number + 1) % u64_mod }) id,
              ==_refl id,
              whole,
            ),
        ap (λ m. m.1.clients_socket.fate) streamed
            ∙ send_unreliable_broadcast-fate (video (video_packet id v d)) v.interested
                s.clients_socket,
      )

  -- While the encoder of a video with a subscriber yields datagrams, the sends succeed and the
  -- numbers do not wrap: every subscriber is sent every datagram, in order, in packets that are
  -- numbered without a gap, and the video keeps the last number.
  pub stream_datagrams_lem :
      (id : VideoId) (ds bs : List Bytes) (s : State) (v : Video)
      → get s.videos id ≡ some v
      → is_empty v.interested ≡ false
      → v.sequence_number + length ds < u64_mod
      → AreWritten codec (numbered id v.sequence_number ds) bs
      → ((c : ℕ) → s.clients_socket.fate c ≡ true)
      → let t = (for_each ds (stream_datagram id) s).1 in
        ((for_each ds (stream_datagram id) s).0 ≡ ok tt)
        × (t.clients_socket.wire ≡ broadcasts bs v.interested s.clients_socket.wire)
        × (get t.videos id ≡ some (record v { sequence_number = v.sequence_number + length ds }))
  stream_datagrams_lem id [] [] s v found some_one small written up =
      (refl, refl, found ∙ ground arith)
  stream_datagrams_lem id [] (b ∷ bs) s v found some_one small written up = absurd written
  stream_datagrams_lem id (d ∷ ds) [] s v found some_one small written up = absurd written
  stream_datagrams_lem id (d ∷ ds) (b ∷ bs) s v found some_one small written up =
      let (outcome, out, kept, fate) =
        stream_one id d b s v found some_one (omega arith) written.0 up in
      let t = (stream_datagram id d s).1 in
      let (done, sent, last) =
        stream_datagrams_lem id ds bs t (next v) kept some_one (omega arith) written.1
          (λ c. rw fate (up c)) in
      rw outcome (done, sent ∙ ap (broadcasts bs v.interested) out, last ∙ ground arith)

  -- The datagrams that the loop receives before the process has ended.
  abbrev pub yielded : List Selected → List Bytes
  yielded [] = []
  yielded (ended ∷ es) = []
  yielded (fails ∷ es) = yielded es
  yielded (received bytes ∷ es) = bytes ∷ yielded es

  go_on :
      (r : Outcome Unit) (s : State) (f g : Task State Unit)
      → ((t : State) → f t ≡ g t)
      → let m = continue r (λ _. pure true) s in
        continue m.0 (λ b. if b then f else pure tt) m.1 ≡ continue r (λ _. g) s
  go_on (ok a) s f g same = same s
  go_on (err e) s f g same = refl
  go_on panic s f g same = refl
  go_on blocked s f g same = refl

  -- The loop of a video's task does nothing but to send on what it receives: a failed `recv` changes
  -- nothing, and nothing follows the end of the process.
  pub stream_loop_lem :
      (id : VideoId) (es : List Selected) (s : State)
      → stream_loop id es s ≡ for_each (yielded es) (stream_datagram id) s
  unfolding stream_loop stream_round
  stream_loop_lem id [] s = refl
  stream_loop_lem id (ended ∷ es) s = refl
  stream_loop_lem id (fails ∷ es) s = stream_loop_lem id es s
  stream_loop_lem id (received bytes ∷ es) s =
      let (r, t) = stream_datagram id bytes s in
      go_on r t (stream_loop id es) (for_each (yielded es) (stream_datagram id))
        (stream_loop_lem id es)
