-- ===== src/Common/Reliable.antt =====
-- common/src/reliable.rs: the reliable UDP socket. `bincode` is the parameter `Codec`. The part of
-- the operating system is in the state: `fate n` says whether call `n` of `send_to` succeeds, and
-- `wire` holds the datagrams that were handed over, newest first. A oneshot channel is named by its
-- packet id, and `results` holds what was sent on the channels, newest first.
pub mod Sound
pub mod Invariant
pub mod Retransmission
pub mod Delivery
pub mod Outcomes
use pessi_streamer.Base.{
  ℕ, ◌+◌, ◌-◌, ◌*◌, ◌%◌, ◌≡◌, Bool, true, false, Option, none, some, List, [], ◌∷◌, leb,
  if◌then◌else◌, retain, not, ◌==◌, nat_eq,
}
use pessi_streamer.Containers.{Containers, Map, new_map, get, insert, remove}
use pessi_streamer.Common.Packet.{SocketAddr, Duration, SystemTime, millisecond, u64_mod}
use pessi_streamer.Common.Effect.{
  io_error, bincode_error, Outcome, ok, err, Task, pure, update, ◌>>=◌, ◌>>◌,
}

abbrev pub max_retries : ℕ
max_retries = 5

abbrev pub retry_timeout : Duration
retry_timeout = 100 * millisecond

abbrev pub Bytes : Type 0
Bytes = List ℕ

pub record PendingPacket : Type 0 where
  pub bytes : Bytes
  pub destination : SocketAddr
  pub timestamp : SystemTime
  pub retries : ℕ

pub data UdpPacket (T : Type 0) : Type 0 where
  unreliable : T → UdpPacket T
  reliable : ℕ → T → UdpPacket T
  ack : ℕ → UdpPacket T

pub data ReliablePacketResult : Type 0 where
  acknowledged : Duration → ReliablePacketResult
  timeout : ReliablePacketResult

-- `bincode`: what it writes it reads back.
pub record Codec (T : Type 0) : Type 0 where
  pub serialize : UdpPacket T → Option Bytes
  pub deserialize : Bytes → Option (UdpPacket T)
  pub read_back : (p : UdpPacket T) (b : Bytes) → serialize p ≡ some b → deserialize b ≡ some p

-- `tasks` are the packets whose retransmission loop runs.
pub record Socket ⦃lib : Containers⦄ : Type 0 where
  pub local_addr : SocketAddr
  pub pending_packets : Map ℕ PendingPacket
  pub sequence_number : ℕ
  pub tasks : List ℕ
  pub results : List (ℕ × ReliablePacketResult)
  pub wire : List (SocketAddr × Bytes)
  pub calls : ℕ
  pub fate : ℕ → Bool

module _ ⦃lib : Containers⦄ where
  -- `ReliableUdpSocket::new`, once the address is bound.
  unfoldable pub new_socket : SocketAddr → (ℕ → Bool) → Socket
  new_socket addr fate = record {
    local_addr = addr;
    pending_packets = new_map;
    sequence_number = 0;
    tasks = [];
    results = [];
    wire = [];
    calls = 0;
    fate = fate;
  }

  -- `UdpSocket::send_to` of the operating system.
  unfoldable pub send_to : SocketAddr → Bytes → Task Socket Unit
  send_to addr b k =
      let k' : Socket = record k { calls = k.calls + 1 } in
      if k.fate k.calls
      then (ok tt, record k' { wire = (addr, b) ∷ k.wire })
      else (err io_error, k')

  -- `let _ = packet.sender.send(result)`, after the packet was removed.
  resolve : ℕ → ReliablePacketResult → Socket → Socket
  resolve id r k = record k {
    pending_packets = remove k.pending_packets id;
    results = (id, r) ∷ k.results;
  }

  finished : ℕ → Socket → Bool × Socket
  finished id k = (false, record k { tasks = retain (λ t. not (t == id)) k.tasks })

  after_resend : SystemTime → ℕ → PendingPacket → Outcome Unit × Socket → Bool × Socket
  unfolding finished
  after_resend now id p (ok _, k) = (
    true,
    record k {
      pending_packets =
          insert k.pending_packets id (record p { timestamp = now; retries = p.retries + 1 });
    },
  )
  after_resend now id p (_, k) = finished id k

  resend : SystemTime → ℕ → Option PendingPacket → Socket → Bool × Socket
  unfolding finished resolve after_resend
  resend now id none k = finished id k
  resend now id (some p) k =
      if leb max_retries p.retries
      then finished id (resolve id timeout k)
      else if leb retry_timeout (now - p.timestamp)
      then after_resend now id p (send_to p.destination p.bytes k)
      else (true, k)

  -- One round of the loop of `handle_retransmission`, after its sleep: whether the loop goes on.
  unfoldable pub retransmit : SystemTime → ℕ → Socket → Bool × Socket
  unfolding resend send_to
  retransmit now id k = resend now id (get k.pending_packets id) k

  -- The loop, awake at the given times; `true` says that it still sleeps.
  unfoldable pub retransmission_loop : ℕ → List SystemTime → Socket → Bool × Socket
  retransmission_loop id [] k = (true, k)
  retransmission_loop id (now ∷ later) k =
      let (more, k') = retransmit now id k in
      let rest = retransmission_loop id later k' in if more then rest else (false, k')

  -- `handle_retransmission` starts the loop.
  unfoldable pub handle_retransmission : ℕ → Task Socket Unit
  handle_retransmission id = update λ k. record k { tasks = id ∷ k.tasks }

  acknowledge : SystemTime → ℕ → Option PendingPacket → Socket → Socket
  unfolding resolve
  acknowledge now id none k = k
  acknowledge now id (some p) k = resolve id (acknowledged (now - p.timestamp)) k

  -- The branch of `receive` for an acknowledgement.
  unfoldable pub receive_ack : SystemTime → ℕ → Socket → Socket
  unfolding acknowledge
  receive_ack now id k = acknowledge now id (get k.pending_packets id) k

  -- `fetch_add` wraps.
  next_packet_id : Task Socket ℕ
  next_packet_id k =
      (ok k.sequence_number, record k { sequence_number = (k.sequence_number + 1) % u64_mod })

  -- The loop of `send_unreliable_broadcast`.
  unfoldable pub send_to_all : Bytes → List SocketAddr → Task Socket Unit
  send_to_all b [] = pure tt
  send_to_all b (addr ∷ addrs) = send_to addr b >> send_to_all b addrs

module _ ⦃lib : Containers⦄ {T : Type 0} ⦃codec : Codec T⦄ where
  serialized : UdpPacket T → Task Socket Bytes
  serialized p k = elim (codec.serialize p) [ none ↦ (err bincode_error, k) | some b ↦ (ok b, k) ]

module _ ⦃lib : Containers⦄ where
  unfoldable pub send_ack : (T : Type 0) ⦃codec : Codec T⦄ → ℕ → SocketAddr → Task Socket Unit
  unfolding serialized
  send_ack T packet_id addr = do b ← serialized {T = T} (ack packet_id); send_to addr b

module _ ⦃lib : Containers⦄ {T : Type 0} ⦃codec : Codec T⦄ where
  -- The result names the receiver of the channel.
  unfoldable pub send_reliable : SystemTime → T → SocketAddr → Task Socket ℕ
  unfolding next_packet_id serialized send_to handle_retransmission
  send_reliable now payload addr = do
    packet_id ← next_packet_id
    b ← serialized (reliable packet_id payload)
    send_to addr b
    update (λ k. record k {
      pending_packets =
          insert k.pending_packets packet_id
            (record { bytes = b; destination = addr; timestamp = now; retries = 0 });
    })
    handle_retransmission packet_id
    pure packet_id

  unfoldable pub send_unreliable : T → SocketAddr → Task Socket Unit
  unfolding serialized
  send_unreliable payload addr = do b ← serialized (unreliable payload); send_to addr b

  unfoldable pub send_unreliable_broadcast : T → List SocketAddr → Task Socket Unit
  unfolding serialized
  send_unreliable_broadcast payload addrs = do
    b ← serialized (unreliable payload)
    send_to_all b addrs

  unfoldable pub on_packet :
      SystemTime → SocketAddr → UdpPacket T → Task Socket (Option (T × SocketAddr))
  unfolding receive_ack send_ack
  on_packet now addr (ack packet_id) = do update (receive_ack now packet_id); pure none
  on_packet now addr (reliable packet_id payload) = do
    send_ack T packet_id addr
    pure (some (payload, addr))
  on_packet now addr (unreliable payload) = pure (some (payload, addr))

  -- `receive`, given what `recv_from` returned: an error, or a datagram and its sender.
  unfoldable pub receive :
      SystemTime → Option (Bytes × SocketAddr) → Task Socket (Option (T × SocketAddr))
  unfolding on_packet
  receive now none k = (err io_error, k)
  receive now (some (b, addr)) k = elim (codec.deserialize b) [
    | none ↦ (err bincode_error, k)
    | some p ↦ on_packet now addr p k
  ]
