-- ===== src/Examples.antt =====
-- Concrete data for the modules below it, which apply the theorems: a codec, sockets and nodes.
pub mod Sockets
pub mod Nodes
pub mod Packets
pub mod Talks
pub mod Exchanges
pub mod Servers
pub mod Clients
pub mod Bootstraps
pub mod Requests
pub mod Starts
pub mod Players
use Prim.Native.String.{String}
use pessi_streamer.Base.{
  ◌≢◌, All-lookup, distinct, ℕ, zero, suc, ◌≡◌, refl, ap, sym, ◌∙◌, Bool, true, Option, none, some,
  List, [], ◌∷◌, nat_eq,
}
use pessi_streamer.Containers.{Containers, insert}
use pessi_streamer.Containers.Assoc.{assoc_containers}
use pessi_streamer.Common.Packet.{
  SocketAddr, addr_eq, VideoPacket, FloodPacket, Packet, video, node, server, client, request_video,
  stop_video, second,
}
use pessi_streamer.Common.Reliable.{
  Bytes, Codec, UdpPacket, unreliable, reliable, ack, PendingPacket, Socket, retry_timeout,
}
use pessi_streamer.Node.State.{
  State, RouteInfo, ParentData, parent, active, unresponsive, Spawned, sum, average_delay_to_server,
}
use pessi_streamer.Node.Best.{AreMeasured}
use pessi_streamer.Node.Invariant.{IsValid}

-- A codec of the packets that the examples send.
abbrev pub tiny_serialize : UdpPacket Packet → Option Bytes
tiny_serialize (ack id) = some (0 ∷ id ∷ [])
tiny_serialize (reliable id (server (request_video v))) = some (1 ∷ id ∷ v ∷ [])
tiny_serialize (reliable id (server (stop_video v))) = some (2 ∷ id ∷ v ∷ [])
tiny_serialize (reliable id (video p)) = none
tiny_serialize (reliable id (node p)) = none
tiny_serialize (reliable id (client p)) = none
tiny_serialize (unreliable (video p)) = some (3 ∷ p.stream_id ∷ p.sequence_number ∷ p.stream_data)
tiny_serialize (unreliable (node p)) = none
tiny_serialize (unreliable (server p)) = none
tiny_serialize (unreliable (client p)) = none

abbrev pub tiny_deserialize : Bytes → Option (UdpPacket Packet)
tiny_deserialize (zero ∷ id ∷ []) = some (ack id)
tiny_deserialize ((suc zero) ∷ id ∷ v ∷ []) = some (reliable id (server (request_video v)))
tiny_deserialize ((suc (suc zero)) ∷ id ∷ v ∷ []) = some (reliable id (server (stop_video v)))
tiny_deserialize ((suc (suc (suc zero))) ∷ stream ∷ number ∷ bytes) = some (
    unreliable
      (video (record { stream_id = stream; sequence_number = number; stream_data = bytes })))
tiny_deserialize b = none

pub some-injective : {A : Type 0} {a b : A} → some a ≡ some b → a ≡ b
some-injective e = cc e

pub tiny_read_back :
    (p : UdpPacket Packet) (b : Bytes) → tiny_serialize p ≡ some b → tiny_deserialize b ≡ some p
tiny_read_back (ack id) b e = ap tiny_deserialize (sym (some-injective e))
tiny_read_back (reliable id (server (request_video v))) b e =
    ap tiny_deserialize (sym (some-injective e))
tiny_read_back (reliable id (server (stop_video v))) b e =
    ap tiny_deserialize (sym (some-injective e))
tiny_read_back (reliable id (video p)) b e = cc e
tiny_read_back (reliable id (node p)) b e = cc e
tiny_read_back (reliable id (client p)) b e = cc e
tiny_read_back (unreliable (video p)) b e = ap tiny_deserialize (sym (some-injective e))
tiny_read_back (unreliable (node p)) b e = cc e
tiny_read_back (unreliable (server p)) b e = cc e
tiny_read_back (unreliable (client p)) b e = cc e

instance abbrev pub tiny_codec : Codec Packet
tiny_codec = record {
  serialize = tiny_serialize;
  deserialize = tiny_deserialize;
  read_back = tiny_read_back;
}

abbrev pub source : SocketAddr
source = record { ip = 1; port = 8010 }

abbrev pub relay : SocketAddr
relay = record { ip = 2; port = 8010 }

abbrev pub viewer : SocketAddr
viewer = record { ip = 3; port = 5000 }

abbrev pub far_route : RouteInfo
far_route = record {
  hops = 2;
  last_delays_to_server = 1000 ∷ [];
  available_videos = 7 ∷ [];
  status = active;
  node_type = parent (record { parents = []; date_last_flood_packet_received = 0 });
}

abbrev pub lost_route : RouteInfo
lost_route = record far_route { status = unresponsive; hops = 1 }

abbrev pub up : ℕ → Bool
up n = true

-- A socket that sent and received nothing.
abbrev pub fresh : SocketAddr → Socket
fresh addr = record {
  local_addr = addr;
  pending_packets = [];
  sequence_number = 0;
  tasks = [];
  results = [];
  wire = [];
  calls = 0;
  fate = up;
}

-- The viewer watches video 7, which comes from `source`, a node that is lost.
abbrev pub small : State
small = record {
  id = 5;
  neighbours = 1 ∷ 2 ∷ [];
  socket = record {
    local_addr = record { ip = 9; port = 8010 };
    pending_packets = [];
    sequence_number = 0;
    tasks = [];
    results = [];
    wire = [];
    calls = 0;
    fate = up;
  };
  video_names = (7, "seven") ∷ [];
  interested = (7, viewer ∷ []) ∷ [];
  last_pings = (viewer, 0) ∷ [];
  available_routes = (source, lost_route) ∷ (relay, far_route) ∷ [];
  video_routes = (7, source) ∷ [];
  last_video_sequence_number = (7, 1) ∷ [];
  last_video_packet_time = [];
  pending_video_requests = [];
  spawned = [];
}

abbrev pub unrouted : State
unrouted = record small { video_routes = [] }

pub small-AreMeasured : AreMeasured small
unfolding average_delay_to_server sum
small-AreMeasured a r found =
    All-lookup (λ e. average_delay_to_server e.1 ≢ none) small.available_routes a r
      ((λ p. cc), ((λ p. cc), tt)) found

pub small-IsValid : IsValid small
unfolding distinct
small-IsValid = record {
  measured = small-AreMeasured;
  unique = λ v subscribers found.
      All-lookup (λ e. distinct e.1 ≡ true) small.interested v subscribers (refl, tt) found;
}
