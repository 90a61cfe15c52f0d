-- ===== src/Node/State.antt =====
-- The state of a node (node/src/node.rs). `spawned` are the tasks that were started and wait for
-- the channel of a reliable packet, newest first.
use Prim.Native.String.{String}
use pessi_streamer.Base.{
  ℕ, ◌/◌, ◌+◌, ◌-◌, Bool, true, false, Option, none, some, List, [], ◌∷◌, map, length, ◌==◌, nat_eq,
  if◌then◌else◌,
}
use pessi_streamer.Containers.{Containers, Map, Ring, new_map, empty_ring, push_back, elements}
use pessi_streamer.Common.Packet.{
  IpAddr, SocketAddr, VideoId, Duration, SystemTime, Packet, FloodPacket, hops,
}
use pessi_streamer.Common.Effect.{Outcome, Task}
use pessi_streamer.Common.Reliable.{Socket, Codec, send_reliable}

pub data RouteStatus : Type 0 where
  active unresponsive : RouteStatus

pub record ParentData : Type 0 where
  pub parents : List SocketAddr
  pub date_last_flood_packet_received : SystemTime

pub data NodeType : Type 0 where
  parent : ParentData → NodeType
  child : NodeType

pub record RouteInfo ⦃lib : Containers⦄ : Type 0 where
  pub hops : ℕ
  pub last_delays_to_server : Ring 10 Duration
  pub available_videos : List VideoId
  pub status : RouteStatus
  pub node_type : NodeType

-- `tokio::spawn` of `handle_send_flood_packet_result`, and of the task of `connect_to_node_parent`.
-- The outcome of the send names the channel that is waited for.
pub data Spawned : Type 0 where
  flood_result : SocketAddr → Outcome ℕ → Spawned
  connecting : SocketAddr → ℕ → Spawned

pub record State ⦃lib : Containers⦄ : Type 0 where
  pub id : ℕ
  pub neighbours : List IpAddr
  pub socket : Socket
  pub video_names : Map VideoId String
  pub interested : Map VideoId (List SocketAddr)
  pub last_pings : Map SocketAddr SystemTime
  pub available_routes : Map SocketAddr RouteInfo
  pub video_routes : Map VideoId SocketAddr
  pub last_video_sequence_number : Map VideoId ℕ
  pub last_video_packet_time : Map VideoId SystemTime
  pub pending_video_requests : List VideoId
  pub spawned : List Spawned

abbrev pub is_active : RouteStatus → Bool
is_active active = true
is_active unresponsive = false

abbrev pub is_parent : NodeType → Bool
is_parent (parent p) = true
is_parent child = false

unfoldable pub sum : List Duration → Duration
sum [] = 0
sum (d ∷ ds) = d + sum ds

abbrev pub video_ids : List (VideoId × String) → List VideoId
video_ids = map λ v. v.0

module _ ⦃lib : Containers⦄ where
  unfoldable pub new_state : ℕ → List IpAddr → Socket → State
  new_state id neighbours socket = record {
    id = id;
    neighbours = neighbours;
    socket = socket;
    video_names = new_map;
    interested = new_map;
    last_pings = new_map;
    available_routes = new_map;
    video_routes = new_map;
    last_video_sequence_number = new_map;
    last_video_packet_time = new_map;
    pending_video_requests = [];
    spawned = [];
  }

  -- `RouteInfo::default`
  abbrev pub default_route : RouteInfo
  default_route = record {
    hops = 0;
    last_delays_to_server = empty_ring;
    available_videos = [];
    status = active;
    node_type = child;
  }

  -- `none` is the panic of a division by zero.
  unfoldable pub average_delay_to_server : RouteInfo → Option Duration
  unfolding sum
  average_delay_to_server r =
      let ds = elements r.last_delays_to_server in
      if length ds == 0 then none else some (sum ds / length ds)

  -- `elapsed().unwrap_or(ZERO)` is the truncated difference.
  unfoldable pub update_from_flood_packet : SystemTime → FloodPacket → RouteInfo → RouteInfo
  unfolding hops
  update_from_flood_packet now p r = record r {
    hops = hops p;
    available_videos = video_ids p.videos_available;
    last_delays_to_server = push_back r.last_delays_to_server (now - p.created_at_server_time);
    status = active;
    node_type = parent (record { parents = p.my_parents; date_last_flood_packet_received = now });
  }

module _ ⦃lib : Containers⦄ ⦃codec : Codec Packet⦄ where
  -- `self.socket.send_reliable(&packet, addr)`
  unfoldable pub send : SystemTime → Packet → SocketAddr → Task State ℕ
  send now p addr s = let (r, k) = send_reliable now p addr s.socket in (r, record s { socket = k })
