-- ===== src/Common/Reliable/Outcomes.antt =====
-- No operation of the socket panics or waits for a lock of its own, and none changes its address
-- or the fate of the system calls.
use pessi_streamer.Base.{
  Option, none, some, ◌≡◌, ◌≢◌, refl, List, [], ◌∷◌, In, arith, Option-cases, Bool-cases, inl, inr,
}
use pessi_streamer.Containers.{Containers}
use pessi_streamer.Common.Packet.{SocketAddr, SystemTime}
use pessi_streamer.Common.Effect.{panic, blocked}
use pessi_streamer.Common.Reliable.{
  Socket, Codec, Bytes, UdpPacket, unreliable, reliable, ack, on_packet, receive, send_ack, send_to,
  send_to_all, serialized, send_reliable, send_unreliable_broadcast,
}

module _ ⦃lib : Containers⦄ {T : Type 0} ⦃codec : Codec T⦄ where
  pub send_reliable-Sound :
      (now : SystemTime) (payload : T) (addr : SocketAddr) (k : Socket)
      → ((send_reliable now payload addr k).0 ≢ panic)
        × ((send_reliable now payload addr k).0 ≢ blocked)
        × ((send_reliable now payload addr k).1.local_addr ≡ k.local_addr)
        × ((send_reliable now payload addr k).1.fate ≡ k.fate)
  unfolding send_reliable serialized send_to
  send_reliable-Sound now payload addr k = ground arith

  -- What is on the wire stays there.
  pub send_reliable-In :
      (e : SocketAddr × Bytes) (now : SystemTime) (payload : T) (addr : SocketAddr) (k : Socket)
      → In e k.wire
      → In e (send_reliable now payload addr k).1.wire
  unfolding send_reliable send_to
  send_reliable-In e now payload addr k h =
      elim (Option-cases (codec.serialize (reliable k.sequence_number payload))) [
        | inl fails ↦ rw (fails, serialized) h
        | inr (b, written) ↦ elim (Bool-cases (k.fate k.calls)) [
          | inl sent ↦ rw (written, serialized, sent) (inr h)
          | inr lost ↦ rw (written, serialized, lost) h
        ]
      ]

module _ ⦃lib : Containers⦄ (T : Type 0) ⦃codec : Codec T⦄ where
  on_packet-ne-panic :
      (now : SystemTime) (addr : SocketAddr) (p : UdpPacket T) (k : Socket)
      → (on_packet now addr p k).0 ≢ panic
  unfolding on_packet send_ack serialized send_to
  on_packet-ne-panic now addr (ack id) k = λ e. cc
  on_packet-ne-panic now addr (reliable id payload) k = ground arith
  on_packet-ne-panic now addr (unreliable payload) k = λ e. cc

  pub receive-ne-panic :
      (now : SystemTime) (d : Option (Bytes × SocketAddr)) (k : Socket)
      → (receive {T = T} now d k).0 ≢ panic
  unfolding receive
  receive-ne-panic now none k = λ e. cc
  receive-ne-panic now (some (b, addr)) k = elim (Option-cases (codec.deserialize b)) [
    | inl fails ↦ rw (fails, receive) (λ e. cc)
    | inr (p, parsed) ↦ rw (parsed, receive) (on_packet-ne-panic now addr p k)
  ]

module _ ⦃lib : Containers⦄ where
  send_to_all-ne-panic :
      (b : Bytes) (addrs : List SocketAddr) (k : Socket) → (send_to_all b addrs k).0 ≢ panic
  unfolding send_to_all send_to
  send_to_all-ne-panic b [] k = λ e. cc
  send_to_all-ne-panic b (addr ∷ addrs) k = elim (Bool-cases (k.fate k.calls)) [
    | inl sent ↦ rw sent (send_to_all-ne-panic b addrs _)
    | inr lost ↦ rw lost (λ e. cc)
  ]

module _ ⦃lib : Containers⦄ {T : Type 0} ⦃codec : Codec T⦄ where
  pub send_unreliable_broadcast-ne-panic :
      (payload : T) (addrs : List SocketAddr) (k : Socket)
      → (send_unreliable_broadcast payload addrs k).0 ≢ panic
  unfolding send_unreliable_broadcast
  send_unreliable_broadcast-ne-panic payload addrs k =
      elim (Option-cases (codec.serialize (unreliable payload))) [
        | inl fails ↦ rw (fails, serialized) (λ e. cc)
        | inr (b, written) ↦ rw (written, serialized) (send_to_all-ne-panic b addrs k)
      ]

module _ ⦃lib : Containers⦄ where
  send_to_all-fate :
      (b : Bytes) (addrs : List SocketAddr) (k : Socket) → (send_to_all b addrs k).1.fate ≡ k.fate
  unfolding send_to_all send_to
  send_to_all-fate b [] k = refl
  send_to_all-fate b (addr ∷ addrs) k = elim (Bool-cases (k.fate k.calls)) [
    | inl sent ↦ rw sent (send_to_all-fate b addrs _)
    | inr lost ↦ rw lost
  ]

module _ ⦃lib : Containers⦄ {T : Type 0} ⦃codec : Codec T⦄ where
  pub send_unreliable_broadcast-fate :
      (payload : T) (addrs : List SocketAddr) (k : Socket)
      → (send_unreliable_broadcast payload addrs k).1.fate ≡ k.fate
  unfolding send_unreliable_broadcast
  send_unreliable_broadcast-fate payload addrs k =
      elim (Option-cases (codec.serialize (unreliable payload))) [
        | inl fails ↦ rw (fails, serialized)
        | inr (b, written) ↦ rw (written, serialized) (send_to_all-fate b addrs k)
      ]
