-- ===== src/Common/Reliable/Delivery.antt =====
-- What `send_reliable` and `receive` of two sockets achieve together.
use pessi_streamer.Base.{
  ℕ, ◌-◌, ◌≡◌, ◌∙◌, ap, refl, true, none, some, List, [], ◌∷◌, ◌+◌, arith, nat_beq_iff, nat_eq,
  if◌then◌else◌,
}
use pessi_streamer.Containers.{Containers, get, get-insert, get-remove}
use pessi_streamer.Common.Packet.{SocketAddr, SystemTime}
use pessi_streamer.Common.Effect.{ok, err, io_error}
use pessi_streamer.Common.Reliable.{
  Socket, PendingPacket, Codec, Bytes, reliable, ack, acknowledged, resolve, acknowledge, send_to,
  serialized, send_reliable, send_ack, receive, receive_ack, on_packet, unreliable, send_to_all,
  send_unreliable_broadcast,
}

module _ ⦃lib : Containers⦄ where
  -- A second acknowledgement of a packet changes nothing.
  pub receive_ack_idempotent :
      (now later : SystemTime) (id : ℕ) (k : Socket)
      → receive_ack later id (receive_ack now id k) ≡ receive_ack now id k
  unfolding receive_ack acknowledge resolve
  receive_ack_idempotent now later id k =
      ground (arith, get-remove k.pending_packets id id, nat_beq_iff id id)

  receive_ack_pending :
      (now : SystemTime) (id : ℕ) (p : PendingPacket) (k : Socket)
      → get k.pending_packets id ≡ some p
      → (get (receive_ack now id k).pending_packets id ≡ none)
        × ((receive_ack now id k).results ≡ (id, acknowledged (now - p.timestamp)) ∷ k.results)
  unfolding receive_ack acknowledge resolve
  receive_ack_pending now id p k found = (
    ground (arith, found, get-remove k.pending_packets id id, nat_beq_iff id id),
    ground (arith, found),
  )

-- The datagrams of a broadcast, on top of those that were sent before.
abbrev pub datagrams :
    Bytes → List SocketAddr → List (SocketAddr × Bytes) → List (SocketAddr × Bytes)
datagrams b [] wire = wire
datagrams b (addr ∷ addrs) wire = datagrams b addrs ((addr, b) ∷ wire)

module _ ⦃lib : Containers⦄ where
  send_to_all_lem :
      (b : Bytes) (addrs : List SocketAddr) (k : Socket)
      → ((c : ℕ) → k.fate c ≡ true)
      → ((send_to_all b addrs k).0 ≡ ok tt)
        × ((send_to_all b addrs k).1.wire ≡ datagrams b addrs k.wire)
  unfolding send_to_all send_to
  send_to_all_lem b [] k up = (refl, refl)
  send_to_all_lem b (addr ∷ addrs) k up =
      rw (up k.calls)
        (send_to_all_lem b addrs (record k { calls = k.calls + 1; wire = (addr, b) ∷ k.wire }) up)

module _ ⦃lib : Containers⦄ {T : Type 0} ⦃codec : Codec T⦄ where
  -- A reliable send of a payload that is written as `b`, which the system accepts: its receiver is
  -- named by the sequence number, the datagram is out, and the packet is pending from now.
  pub send_reliable_sent :
      (now : SystemTime) (payload : T) (addr : SocketAddr) (b : Bytes) (k : Socket)
      → codec.serialize (reliable k.sequence_number payload) ≡ some b
      → k.fate k.calls ≡ true
      → ((send_reliable now payload addr k).0 ≡ ok k.sequence_number)
        × ((send_reliable now payload addr k).1.wire ≡ (addr, b) ∷ k.wire)
        × ((send_reliable now payload addr k).1.results ≡ k.results)
        × (get (send_reliable now payload addr k).1.pending_packets k.sequence_number
            ≡ some (record { bytes = b; destination = addr; timestamp = now; retries = 0 }))
  unfolding send_reliable
  send_reliable_sent now payload addr b k written up =
      rw (written, serialized, up)
        (
          refl,
          refl,
          refl,
          ground (
            arith,
            get-insert k.pending_packets k.sequence_number
                (record { bytes = b; destination = addr; timestamp = now; retries = 0 })
                k.sequence_number,
            nat_beq_iff k.sequence_number k.sequence_number,
          ),
        )

  -- A reliable send of a payload that is written as `b`, on both outcomes of the system call.
  pub send_reliable_written :
      (now : SystemTime) (payload : T) (addr : SocketAddr) (b : Bytes) (k : Socket)
      → codec.serialize (reliable k.sequence_number payload) ≡ some b
      → ((send_reliable now payload addr k).0
          ≡ (if k.fate k.calls then ok k.sequence_number else err io_error))
        × ((send_reliable now payload addr k).1.wire
            ≡ (if k.fate k.calls then (addr, b) ∷ k.wire else k.wire))
  unfolding send_reliable serialized send_to
  send_reliable_written now payload addr b k written = ground (arith, written)

  -- A datagram that holds a reliable packet, whose acknowledgement can be written: it is
  -- acknowledged to its sender, and the payload is handed on exactly if the acknowledgement
  -- could be sent, however often it came before.
  pub receive-reliable :
      (now : SystemTime) (id : ℕ) (payload : T) (from : SocketAddr) (b c : Bytes) (k : Socket)
      → codec.serialize (reliable id payload) ≡ some b
      → codec.serialize (ack id) ≡ some c
      → ((receive now (some (b, from)) k).0
          ≡ (if k.fate k.calls then ok (some (payload, from)) else err io_error))
        × ((receive {T = T} now (some (b, from)) k).1.wire
            ≡ (if k.fate k.calls then (from, c) ∷ k.wire else k.wire))
  unfolding receive on_packet send_ack serialized send_to
  receive-reliable now id payload from b c k written back =
      rw (codec.read_back (reliable id payload) b written, receive)
        (rw (back, serialized) (ground arith))

  receive-ack :
      (now : SystemTime) (id : ℕ) (from : SocketAddr) (c : Bytes) (k : Socket)
      → codec.serialize (ack id) ≡ some c
      → receive {T = T} now (some (c, from)) k ≡ (ok none, receive_ack now id k)
  unfolding receive on_packet
  receive-ack now id from c k back = rw (codec.read_back (ack id) c back, receive)

  -- The whole exchange between two sockets, where both packets can be written, no datagram is
  -- lost and the system accepts both sends: `a` sends a payload reliably to `b`; `b` receives
  -- the datagram, hands the payload on and answers with the acknowledgement; `a` receives that,
  -- hands nothing on, has the packet pending no more, and reports on its channel the time
  -- between the send and the acknowledgement.
  pub handshake :
      (t₀ t₁ t₂ : SystemTime) (payload : T) (d c : Bytes) (a b : Socket)
      → codec.serialize (reliable a.sequence_number payload) ≡ some d
      → codec.serialize (ack a.sequence_number) ≡ some c
      → a.fate a.calls ≡ true
      → b.fate b.calls ≡ true
      → let a₁ = (send_reliable t₀ payload b.local_addr a).1 in
        let b₁ = (receive {T = T} t₁ (some (d, a.local_addr)) b).1 in
        let a₂ = (receive {T = T} t₂ (some (c, b.local_addr)) a₁).1 in
        ((send_reliable t₀ payload b.local_addr a).0 ≡ ok a.sequence_number)
        × (a₁.wire ≡ (b.local_addr, d) ∷ a.wire)
        × ((receive t₁ (some (d, a.local_addr)) b).0 ≡ ok (some (payload, a.local_addr)))
        × (b₁.wire ≡ (a.local_addr, c) ∷ b.wire)
        × ((receive {T = T} t₂ (some (c, b.local_addr)) a₁).0 ≡ ok none)
        × (get a₂.pending_packets a.sequence_number ≡ none)
        × (a₂.results ≡ (a.sequence_number, acknowledged (t₂ - t₀)) ∷ a.results)
  handshake t₀ t₁ t₂ payload d c a b written back up_a up_b =
      let (named, out, same, pends) = send_reliable_sent t₀ payload b.local_addr d a written up_a in
      let (handed, answered) =
        receive-reliable t₁ a.sequence_number payload a.local_addr d c b written back in
      let acked =
        receive-ack t₂ a.sequence_number b.local_addr c (send_reliable t₀ payload b.local_addr a).1
          back in
      let (gone, reported) =
        receive_ack_pending t₂ a.sequence_number _ (send_reliable t₀ payload b.local_addr a).1
          pends in
      (
        named,
        out,
        handed ∙ rw up_b,
        answered ∙ rw up_b,
        ap (λ r. r.0) acked,
        rw acked gone,
        rw acked (reported ∙ rw same),
      )

  -- A broadcast of a payload that is written as `b`, while every send succeeds, puts one datagram
  -- for each address on the wire, in their order.
  pub send_unreliable_broadcast_lem :
      (payload : T) (addrs : List SocketAddr) (b : Bytes) (k : Socket)
      → codec.serialize (unreliable payload) ≡ some b
      → ((c : ℕ) → k.fate c ≡ true)
      → ((send_unreliable_broadcast payload addrs k).0 ≡ ok tt)
        × ((send_unreliable_broadcast payload addrs k).1.wire ≡ datagrams b addrs k.wire)
  unfolding send_unreliable_broadcast
  send_unreliable_broadcast_lem payload addrs b k written up =
      rw (written, serialized) (send_to_all_lem b addrs k up)

module _ ⦃lib : Containers⦄ {T : Type 0} ⦃codec : Codec T⦄ where
  -- A datagram that holds a reliable packet, whose acknowledgement is sent, is handed on; the socket
  -- changes by that send only.
  pub receive-handed :
      (now : SystemTime) (id : ℕ) (payload : T) (from : SocketAddr) (b c : Bytes) (k : Socket)
      → codec.serialize (reliable id payload) ≡ some b
      → codec.serialize (ack id) ≡ some c
      → k.fate k.calls ≡ true
      → receive now (some (b, from)) k
        ≡ (ok (some (payload, from)), record k { calls = k.calls + 1; wire = (from, c) ∷ k.wire })
  unfolding receive on_packet send_ack serialized send_to
  receive-handed now id payload from b c k written back up =
      rw (codec.read_back (reliable id payload) b written, receive)
        (rw (back, serialized) (rw up refl))
