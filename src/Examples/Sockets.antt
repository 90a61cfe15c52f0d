-- ===== src/Examples/Sockets.antt =====
-- The theorems on the reliable socket, at concrete sockets.
use pessi_streamer.Base.{ℕ, ◌≡◌, refl, Bool, false, none, some, List, [], ◌∷◌, nat_eq, arith}
use pessi_streamer.Containers.{get}
use pessi_streamer.Containers.Assoc.{assoc_containers}
use pessi_streamer.Common.Packet.{SocketAddr, Packet, server, request_video, SystemTime}
use pessi_streamer.Common.Effect.{ok}
use pessi_streamer.Common.Reliable.{
  Socket, PendingPacket, acknowledged, timeout, new_socket, send_reliable, receive,
  retransmission_loop,
}
use pessi_streamer.Common.Reliable.Sound.{IsSound, new_socket-IsSound}
use pessi_streamer.Common.Reliable.Invariant.{Event, sends, receives, wakes, run, run-IsSound}
use pessi_streamer.Common.Reliable.Retransmission.{
  repeat, retransmission_gives_up, retransmission_ends,
}
use pessi_streamer.Common.Reliable.Delivery.{handshake}
use pessi_streamer.Examples.{fresh, up, tiny_codec}

abbrev alice : SocketAddr
alice = record { ip = 1; port = 8010 }

abbrev bob : SocketAddr
bob = record { ip = 2; port = 8010 }

abbrev down : ℕ → Bool
down n = false

abbrev request : Packet
request = server (request_video 7)

-- A packet that was sent once, at the start.
abbrev pending : PendingPacket
pending = record { bytes = 1 ∷ 0 ∷ 7 ∷ []; destination = bob; timestamp = 0; retries = 4 }

abbrev waiting : (ℕ → Bool) → Socket
waiting fate = record {
  local_addr = alice;
  pending_packets = (0, pending) ∷ [];
  sequence_number = 1;
  tasks = 0 ∷ [];
  results = [];
  wire = (bob, 1 ∷ 0 ∷ 7 ∷ []) ∷ [];
  calls = 1;
  fate = fate;
}

abbrev exchange : List (SystemTime × Event Packet)
exchange =
    (0, sends request bob)
    ∷ (200_000_000, wakes 0)
    ∷ (300_000_000, receives (some (0 ∷ 0 ∷ [], bob)))
    ∷ []

run-IsSound_example : IsSound (run exchange (new_socket alice up))
unfolding new_socket
run-IsSound_example =
    run-IsSound exchange (new_socket alice up) (omega arith) (new_socket-IsSound alice up)

abbrev wakeups : List SystemTime
wakeups = 100_000_000 ∷ 200_000_000 ∷ []

retransmission_gives_up_example :
    ((retransmission_loop 0 wakeups (waiting up)).0 ≡ false)
    × ((retransmission_loop 0 wakeups (waiting up)).1.wire
        ≡ repeat 1 (bob, pending.bytes) (waiting up).wire)
    × ((retransmission_loop 0 wakeups (waiting up)).1.results ≡ (0, timeout) ∷ [])
    × (get (retransmission_loop 0 wakeups (waiting up)).1.pending_packets 0 ≡ none)
retransmission_gives_up_example =
    retransmission_gives_up 1 wakeups 0 pending (waiting up) refl refl refl
      (omega arith, (omega arith, tt)) (λ c. refl)

retransmission_ends_example : (retransmission_loop 0 wakeups (waiting down)).0 ≡ false
retransmission_ends_example =
    retransmission_ends 1 wakeups 0 pending (waiting down) refl (omega arith) (omega arith)
      (omega arith, (omega arith, tt))

handshake_example :
    let a₁ = (send_reliable 5 request bob (fresh alice)).1 in
    let b₁ = (receive {T = Packet} 6 (some (1 ∷ 0 ∷ 7 ∷ [], alice)) (fresh bob)).1 in
    let a₂ = (receive {T = Packet} 9 (some (0 ∷ 0 ∷ [], bob)) a₁).1 in
    ((send_reliable 5 request bob (fresh alice)).0 ≡ ok 0)
    × (a₁.wire ≡ (bob, 1 ∷ 0 ∷ 7 ∷ []) ∷ [])
    × ((receive 6 (some (1 ∷ 0 ∷ 7 ∷ [], alice)) (fresh bob)).0 ≡ ok (some (request, alice)))
    × (b₁.wire ≡ (alice, 0 ∷ 0 ∷ []) ∷ [])
    × ((receive {T = Packet} 9 (some (0 ∷ 0 ∷ [], bob)) a₁).0 ≡ ok none)
    × (get a₂.pending_packets 0 ≡ none)
    × (a₂.results ≡ (0, acknowledged 4) ∷ [])
handshake_example =
    handshake 5 6 9 request (1 ∷ 0 ∷ 7 ∷ []) (0 ∷ 0 ∷ []) (fresh alice) (fresh bob) refl refl refl
      refl
