-- ===== src/Common/Packet.antt =====
-- common/src/packet.rs, and the addresses and constants of common/src/lib.rs. Times and durations
-- are in nanoseconds, as `SystemTime` and `Duration` keep them.
use Prim.Native.String.{String}
use pessi_streamer.Base.{ℕ, ◌≡◌, ◌*◌, ◌^◌, Bool, true, ◌&&◌, List, ◌↔◌, arith, Eq, nat_beq, length}

-- `IpAddr`: the addresses are told apart, and nothing else is done with them.
abbrev pub IpAddr : Type 0
IpAddr = ℕ

pub record SocketAddr : Type 0 where
  pub ip : IpAddr
  pub port : ℕ

abbrev pub addr_beq : SocketAddr → SocketAddr → Bool
addr_beq a b = nat_beq a.ip b.ip && nat_beq a.port b.port

pub addr_beq_iff : (a b : SocketAddr) → (addr_beq a b ≡ true) ↔ (a ≡ b)
addr_beq_iff a b = ground arith

instance abbrev pub addr_eq : Eq SocketAddr
addr_eq = record { beq = addr_beq; beq_iff = addr_beq_iff }

abbrev pub VideoId : Type 0
VideoId = ℕ

abbrev pub Duration : Type 0
Duration = ℕ

abbrev pub SystemTime : Type 0
SystemTime = ℕ

abbrev pub second : Duration
second = 1_000_000_000

abbrev pub millisecond : Duration
millisecond = 1_000_000

abbrev pub server_port : ℕ
server_port = 8010

abbrev pub flood_packet_interval : Duration
flood_packet_interval = 1 * second

abbrev pub client_ping_interval : Duration
client_ping_interval = 1 * second

abbrev pub video_packet_max_delay : Duration
video_packet_max_delay = 500 * millisecond

-- The values of a `u64`.
abbrev pub u64_mod : ℕ
u64_mod = 2 ^ 64

pub record VideoPacket : Type 0 where
  pub stream_id : VideoId
  pub sequence_number : ℕ
  pub stream_data : List ℕ

pub record FloodPacket : Type 0 where
  pub created_at_server_time : SystemTime
  pub videos_available : List (VideoId × String)
  pub visited_nodes : List ℕ
  pub my_parents : List SocketAddr

unfoldable pub hops : FloodPacket → ℕ
hops p = length p.visited_nodes

pub data NodePacket : Type 0 where
  client_ping : ℕ → List VideoId → NodePacket
  new_neighbour : NodePacket
  flood : FloodPacket → NodePacket

pub data ServerPacket : Type 0 where
  request_video stop_video : VideoId → ServerPacket

pub record VideoListPacket : Type 0 where
  pub sequence_number : ℕ
  pub videos : List (VideoId × String)
  pub answer_creation_date : SystemTime

pub data ClientPacket : Type 0 where
  video_list : VideoListPacket → ClientPacket

pub data Packet : Type 0 where
  video : VideoPacket → Packet
  node : NodePacket → Packet
  server : ServerPacket → Packet
  client : ClientPacket → Packet

pub record BootstrapperNeighboursResponse : Type 0 where
  pub neighbours : List IpAddr
  pub id : ℕ
