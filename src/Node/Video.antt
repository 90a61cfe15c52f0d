-- ===== src/Node/Video.antt =====
-- Which video packets `handle_video_packet` of node/src/handle.rs passes on.
use pessi_streamer.Base.{
  ℕ, ◌+◌, ◌%◌, ◌≤◌, ◌<◌, ◌≡◌, ap, ◌∙◌, true, some, List, arith, nat_eq, unwrap_or, ==_iff,
}
use pessi_streamer.Containers.{Containers, get, get-insert}
use pessi_streamer.Common.Packet.{SocketAddr, SystemTime, u64_mod, Packet, VideoPacket, video}
use pessi_streamer.Common.Effect.{ok}
use pessi_streamer.Common.Reliable.{Codec, Bytes, unreliable}
use pessi_streamer.Common.Reliable.Delivery.{datagrams, send_unreliable_broadcast_lem}
use pessi_streamer.Node.State.{State}
use pessi_streamer.Node.Handle.{broadcast, note_video_packet, forward_video, handle_video_packet}

module _ ⦃lib : Containers⦄ ⦃codec : Codec Packet⦄ (now : SystemTime) where
  -- The sequence number that the node expects next, on the stream of the packet.
  abbrev pub expected : State → VideoPacket → ℕ
  expected s p =
      (unwrap_or (get s.last_video_sequence_number p.stream_id) p.sequence_number + 1) % u64_mod

  -- A packet beyond the expected one, as the first that arrives after a loss, is passed on to
  -- nobody; only its number and its time are noted.
  pub handle_video_packet_gap :
      (p : VideoPacket) (s : State)
      → expected s p < p.sequence_number
      → handle_video_packet now p s ≡ (ok tt, note_video_packet now p s)
  unfolding handle_video_packet forward_video
  handle_video_packet_gap p s ahead = ground (arith, ahead)

  pub handle_video_packet_passes :
      (p : VideoPacket) (s : State)
      → p.sequence_number ≤ expected s p
      → handle_video_packet now p s
        ≡ broadcast now p (get s.interested p.stream_id) (note_video_packet now p s)
  unfolding handle_video_packet forward_video note_video_packet
  handle_video_packet_passes p s near = ground (arith, near)

  -- A packet with the expected number, or one that is older, if it can be written, goes to
  -- every subscriber of its stream, in their order, while every send succeeds.
  pub handle_video_packet_relays :
      (p : VideoPacket) (subscribers : List SocketAddr) (b : Bytes) (s : State)
      → p.sequence_number ≤ expected s p
      → get s.interested p.stream_id ≡ some subscribers
      → codec.serialize (unreliable (video p)) ≡ some b
      → ((c : ℕ) → s.socket.fate c ≡ true)
      → ((handle_video_packet now p s).0 ≡ ok tt)
        × ((handle_video_packet now p s).1.socket.wire ≡ datagrams b subscribers s.socket.wire)
  unfolding broadcast note_video_packet
  handle_video_packet_relays p subscribers b s near wanted written up =
      let (outcome, out) =
        send_unreliable_broadcast_lem (video p) subscribers b s.socket written up in
      (ap (λ m. m.0) relays ∙ outcome, ap (λ m. m.1.socket.wire) relays ∙ out)
    where
      relays :
          handle_video_packet now p s
          ≡ broadcast now p (some subscribers) (note_video_packet now p s)
      relays =
          handle_video_packet_passes p s near
          ∙ ap (λ o. broadcast now p o (note_video_packet now p s)) wanted

  -- One lost packet costs two: after packet `n` packet `n + 1` is lost; packet `n + 2` arrives
  -- and goes to nobody; packet `n + 3` arrives and goes to every subscriber, in their order.
  -- This holds where the numbers do not wrap, the last packet can be written, and every send
  -- succeeds.
  pub lost_packet_costs_two :
      (p q : VideoPacket) (n : ℕ) (subscribers : List SocketAddr) (b : Bytes) (s : State)
      → get s.last_video_sequence_number p.stream_id ≡ some n
      → n + 3 < u64_mod
      → p.sequence_number ≡ n + 2
      → q.sequence_number ≡ n + 3
      → q.stream_id ≡ p.stream_id
      → get s.interested p.stream_id ≡ some subscribers
      → codec.serialize (unreliable (video q)) ≡ some b
      → ((c : ℕ) → s.socket.fate c ≡ true)
      → let t = (handle_video_packet now p s).1 in
        (t.socket.wire ≡ s.socket.wire)
        × ((handle_video_packet now q t).1.socket.wire ≡ datagrams b subscribers s.socket.wire)
  unfolding note_video_packet
  lost_packet_costs_two p q n subscribers b s last small second third same wanted written up = (
    ap (λ m. m.1.socket.wire) dropped,
    ap (λ m. (handle_video_packet now q m.1).1.socket.wire) dropped
        ∙ (handle_video_packet_relays q subscribers b (note_video_packet now p s)
            (ground (
              arith,
              third,
              second,
              same,
              get-insert s.last_video_sequence_number p.stream_id p.sequence_number q.stream_id,
              ==_iff p.stream_id q.stream_id,
            ))
            (ap (λ v. get s.interested v) same ∙ wanted) written up).1,
  )
    where
      dropped : handle_video_packet now p s ≡ (ok tt, note_video_packet now p s)
      dropped = handle_video_packet_gap p s (ground (arith, last, second))
