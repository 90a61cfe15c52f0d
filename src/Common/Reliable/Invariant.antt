-- ===== src/Common/Reliable/Invariant.antt =====
-- The bookkeeping of reliable.rs under any sequence of sends, datagrams and wake-ups.
use pessi_streamer.Base.{
  ℕ, ◌+◌, ◌%◌, ◌≤◌, ◌<◌, refl, Option, none, some, List, [], ◌∷◌, arith, length, nat_eq,
  Option-cases, Bool-cases, inl, inr,
}
use pessi_streamer.Containers.{Containers}
use pessi_streamer.Common.Packet.{SocketAddr, SystemTime, u64_mod}
use pessi_streamer.Common.Effect.{continue_keeps}
use pessi_streamer.Common.Reliable.{
  Socket, Codec, Bytes, UdpPacket, unreliable, reliable, ack, serialized, handle_retransmission,
  on_packet, send_to, resolve, finished, after_resend, resend, retransmit, receive_ack, acknowledge,
  send_reliable, send_ack, receive,
}
use pessi_streamer.Common.Reliable.Sound.{
  IsSound, IsSound-frame, insert-IsSound, retransmit-IsSound, receive_ack-IsSound, send_to-IsSound,
  grow-IsSound,
}

-- What drives a socket: the program sends, a datagram or a receive error comes in, or the
-- retransmission loop of a packet wakes up.
pub data Event (T : Type 0) : Type 0 where
  sends : T → SocketAddr → Event T
  receives : Option (Bytes × SocketAddr) → Event T
  wakes : ℕ → Event T

module _ ⦃lib : Containers⦄ {T : Type 0} ⦃codec : Codec T⦄ where
  unfoldable pub step : SystemTime × Event T → Socket → Socket
  step (now, sends payload addr) k = (send_reliable now payload addr k).1
  step (now, receives datagram) k = (receive {T = T} now datagram k).1
  step (now, wakes id) k = (retransmit now id k).1

  unfoldable pub run : List (SystemTime × Event T) → Socket → Socket
  unfolding step
  run [] k = k
  run (e ∷ es) k = run es (step e k)

module _ ⦃lib : Containers⦄ {T : Type 0} ⦃codec : Codec T⦄ where
  send_reliable-IsSound :
      (now : SystemTime) (payload : T) (addr : SocketAddr) (k : Socket)
      → k.sequence_number + 1 < u64_mod
      → IsSound k
      → IsSound (send_reliable now payload addr k).1
  unfolding send_reliable
  send_reliable-IsSound now payload addr k room s =
      let grown : IsSound (record k { sequence_number = (k.sequence_number + 1) % u64_mod }) =
        grow-IsSound k room s in
      elim (Option-cases (codec.serialize (reliable k.sequence_number payload))) [
        | inl fails ↦ rw (fails, serialized) grown
        | inr (b, written) ↦ elim (Bool-cases (k.fate k.calls)) [
          | inl sent ↦
              rw (written, serialized, sent)
                (insert-IsSound k.sequence_number _ k _ refl (omega arith) refl (omega arith)
                  (omega arith) (λ e h. omega arith) s)
          | inr lost ↦ rw (written, serialized, lost) (IsSound-frame _ _ refl refl refl grown)
        ]
      ]

  send_ack-IsSound :
      (codec' : Codec T) (id : ℕ) (addr : SocketAddr) (k : Socket)
      → IsSound k
      → IsSound (send_ack T ⦃codec = codec'⦄ id addr k).1
  unfolding send_ack
  send_ack-IsSound codec' id addr k s = elim (Option-cases (codec'.serialize (ack id))) [
    | inl fails ↦ rw (fails, serialized) s
    | inr (b, written) ↦ rw (written, serialized) (send_to-IsSound addr b k s)
  ]

  on_packet-IsSound :
      (now : SystemTime) (addr : SocketAddr) (p : UdpPacket T) (k : Socket)
      → IsSound k
      → IsSound (on_packet now addr p k).1
  unfolding on_packet
  on_packet-IsSound now addr (unreliable payload) k s = s
  on_packet-IsSound now addr (reliable id payload) k s =
      continue_keeps IsSound (send_ack T id addr k) _ (send_ack-IsSound codec id addr k s)
        (λ _ _. send_ack-IsSound codec id addr k s)
  on_packet-IsSound now addr (ack id) k s = receive_ack-IsSound now id k s

module _ ⦃lib : Containers⦄ (T : Type 0) ⦃codec : Codec T⦄ where
  receive-IsSound :
      (now : SystemTime) (d : Option (Bytes × SocketAddr)) (k : Socket)
      → IsSound k
      → IsSound (receive {T = T} now d k).1
  unfolding receive
  receive-IsSound now none k s = s
  receive-IsSound now (some (b, addr)) k s = elim (Option-cases (codec.deserialize b)) [
    | inl fails ↦ rw (fails, receive) s
    | inr (p, read) ↦ rw (read, receive) (on_packet-IsSound now addr p k s)
  ]

module _ ⦃lib : Containers⦄ {T : Type 0} ⦃codec : Codec T⦄ where
  step-IsSound :
      (e : SystemTime × Event T) (k : Socket)
      → k.sequence_number + 1 < u64_mod
      → IsSound k
      → IsSound (step e k)
  unfolding step
  step-IsSound (now, sends payload addr) k room s = send_reliable-IsSound now payload addr k room s
  step-IsSound (now, receives d) k room s = receive-IsSound T now d k s
  step-IsSound (now, wakes id) k room s = retransmit-IsSound now id k s

  -- An event takes one sequence number at most.
  sequence_number-step :
      (e : SystemTime × Event T) (k : Socket) → (step e k).sequence_number ≤ k.sequence_number + 1
  unfolding step send_reliable receive retransmit on_packet receive_ack acknowledge resend resolve
      after_resend send_to finished send_ack handle_retransmission
  sequence_number-step (now, sends payload addr) k = ground arith
  sequence_number-step (now, receives none) k = ground arith
  sequence_number-step (now, receives (some (b, addr))) k = ground arith
  sequence_number-step (now, wakes id) k = ground arith

  -- From a sound socket, with sequence numbers left for all events: however sends, datagrams,
  -- receive errors and wake-ups follow one another, no pending packet was retried more than
  -- `MAX_RETRIES` times, and every channel got at most one result, of a packet that is not pending
  -- any more.
  pub run-IsSound :
      (es : List (SystemTime × Event T)) (k : Socket)
      → k.sequence_number + length es < u64_mod
      → IsSound k
      → IsSound (run es k)
  unfolding run
  run-IsSound [] k room s = s
  run-IsSound (e ∷ es) k room s =
      run-IsSound es (step e k) (omega (arith, sequence_number-step e k))
        (step-IsSound e k (omega arith) s)
