-- ===== src/Client/State.antt =====
-- The state of the client and its queries (client/src/client.rs), and the video player as the
-- client sees it (client/src/video.rs): a channel, on which a write fails once its other end is
-- dropped. `written` is what was sent on it, newest first.
use Prim.Native.String.{String}
use mathlib.Core.Option
use mathlib.Core.List.{foldl}
use pessi_streamer.Base.{
  ℕ, ◌+◌, ◌/◌, Bool, true, false, ◌&&◌, Option, none, some, List, [], ◌∷◌, ◌++◌, length, ◌==◌,
  nat_eq, contains, retain, keys, leb, if◌then◌else◌,
}
use pessi_streamer.Containers.{
  Containers, Map, Ring, new_map, empty_ring, push_back, elements, iter, insert,
}
use pessi_streamer.Common.Packet.{
  IpAddr, SocketAddr, addr_eq, VideoId, Duration, SystemTime, server_port, Packet,
}
use pessi_streamer.Common.Effect.{Task}
use pessi_streamer.Common.Reliable.{Socket, Codec, Bytes, send_reliable}
use pessi_streamer.Selection.{select}

pub data VideoPlayerType : Type 0 where
  ffplay mpv : VideoPlayerType

pub record VideoPlayer : Type 0 where
  pub player_type : VideoPlayerType
  pub is_closed : Bool
  pub written : List Bytes

pub data NodeStatus : Type 0 where
  connecting connected unresponsive : NodeStatus

pub record Node ⦃lib : Containers⦄ : Type 0 where
  pub addr : SocketAddr
  pub latest_rtts : Ring 10 Duration
  pub last_received_ping : Option SystemTime
  pub status : NodeStatus
  pub available_videos : List VideoId

-- With no source, the video waits for a node to be connected.
pub record PlayingVideo : Type 0 where
  pub source : Option SocketAddr
  pub video_player : VideoPlayer
  pub last_sequence_number : ℕ
  pub bytes_written : ℕ

pub record State ⦃lib : Containers⦄ : Type 0 where
  pub socket : Socket
  pub nodes : Map SocketAddr Node
  pub pending_pings : Map ℕ (SocketAddr × SystemTime)
  pub ping_sequence_number : ℕ
  pub video_names : Map VideoId String
  pub playing_videos : Map VideoId PlayingVideo
  pub video_player : VideoPlayerType

abbrev pub is_connected : NodeStatus → Bool
is_connected connecting = false
is_connected connected = true
is_connected unresponsive = false

abbrev pub comes_from : SocketAddr → Option SocketAddr → Bool
comes_from addr none = false
comes_from addr (some a) = a == addr

unfoldable pub sum : List Duration → Duration
sum [] = 0
sum (d ∷ ds) = d + sum ds

-- `sort_unstable`: equal numbers cannot be told apart.
unfoldable pub insert_sorted : ℕ → List ℕ → List ℕ
insert_sorted x [] = x ∷ []
insert_sorted x (y ∷ ys) = if leb x y then x ∷ y ∷ ys else y ∷ insert_sorted x ys

unfoldable pub sorted : List ℕ → List ℕ
unfolding insert_sorted
sorted [] = []
sorted (x ∷ xs) = insert_sorted x (sorted xs)

-- `dedup`: of equal neighbours the first one stays.
unfoldable pub dedup_from : ℕ → List ℕ → List ℕ
dedup_from x [] = []
dedup_from x (y ∷ ys) = if x == y then dedup_from y ys else y ∷ dedup_from y ys

unfoldable pub dedup : List ℕ → List ℕ
unfolding dedup_from
dedup [] = []
dedup (x ∷ xs) = x ∷ dedup_from x xs

module _ ⦃lib : Containers⦄ where
  abbrev pub new_node : SocketAddr → Node
  new_node addr = record {
    addr = addr;
    latest_rtts = empty_ring;
    last_received_ping = none;
    status = connecting;
    available_videos = [];
  }

  unfoldable pub register_ping_answer : SystemTime → Duration → List VideoId → Node → Node
  register_ping_answer now rtt video_list n = record n {
    latest_rtts = push_back n.latest_rtts rtt;
    last_received_ping = some now;
    status = connected;
    available_videos = video_list;
  }

  -- `none` is the panic of a division by zero.
  unfoldable pub average_rtt : Node → Option Duration
  unfolding sum
  average_rtt n =
      let ds = elements n.latest_rtts in if length ds == 0 then none else some (sum ds / length ds)

  unfoldable pub new_nodes : List IpAddr → Map SocketAddr Node
  new_nodes =
      foldl
        (λ m ip.
          let addr : SocketAddr = record { ip = ip; port = server_port } in
          insert m addr (new_node addr))
        new_map

  unfoldable pub new_state : Socket → List IpAddr → VideoPlayerType → State
  unfolding new_nodes
  new_state socket servers video_player_type = record {
    socket = socket;
    nodes = new_nodes servers;
    pending_pings = new_map;
    ping_sequence_number = 0;
    video_names = new_map;
    playing_videos = new_map;
    video_player = video_player_type;
  }

  unfoldable pub listed_videos : List (SocketAddr × Node) → List VideoId
  listed_videos [] = []
  listed_videos (e ∷ es) = e.1.available_videos ++ listed_videos es

  unfoldable pub available_videos : State → List VideoId
  unfolding listed_videos sorted dedup
  available_videos s = dedup (sorted (listed_videos (iter s.nodes)))

  unfoldable pub get_videos_playing_from_node : State → SocketAddr → List VideoId
  get_videos_playing_from_node s addr =
      keys (retain (λ e. comes_from addr e.1.source) (iter s.playing_videos))

  -- A connected node that has the video.
  abbrev pub offers : VideoId → SocketAddr × Node → Bool
  offers video_id e = is_connected e.1.status && contains e.1.available_videos video_id

  abbrev pub node_key : State → SocketAddr × Node → List ℕ
  node_key s e = length (get_videos_playing_from_node s e.0) ∷ length e.1.available_videos ∷ []

  -- The outer `none` is a panic.
  unfoldable pub select_best_node : State → VideoId → Option (Option SocketAddr)
  select_best_node s video_id =
      Option.map (Option.map λ e. e.0)
        (select (λ e. average_rtt e.1) (node_key s) (retain (offers video_id) (iter s.nodes)))

module _ ⦃lib : Containers⦄ ⦃codec : Codec Packet⦄ where
  -- `self.socket.send_reliable(&packet, addr)`
  unfoldable pub send : SystemTime → Packet → SocketAddr → Task State ℕ
  send now p addr s = let (r, k) = send_reliable now p addr s.socket in (r, record s { socket = k })
