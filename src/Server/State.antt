-- ===== src/Server/State.antt =====
-- The state of the server (server/src/server.rs), and what its client socket does with a packet.
-- `spawned` are the streaming tasks that were started and wait for their encoder.
use Prim.Native.String.{String}
use pessi_streamer.Base.{
  string_eq, ℕ, Bool, false, Option, none, some, List, [], ◌∷◌, ◌++◌, ◌==◌, any, map, nat_eq,
}
use pessi_streamer.Containers.{Containers, Map, new_map, iter, modify}
use pessi_streamer.Common.Packet.{
  SocketAddr, VideoId, Packet, video, node, server, client, client_ping, new_neighbour, flood,
  request_video, stop_video,
}
use pessi_streamer.Common.Subscribers.{add_subscriber, drop_subscriber}
use pessi_streamer.Common.Reliable.{Socket}
use pessi_streamer.Server.Files.{FilePath, get_video_name_from_path}

pub record Video : Type 0 where
  pub name : String
  pub interested : List SocketAddr
  pub sequence_number : ℕ

pub record State ⦃lib : Containers⦄ : Type 0 where
  pub id : ℕ
  pub videos : Map VideoId Video
  pub clients_socket : Socket
  pub neighbours : List SocketAddr
  pub spawned : List FilePath

abbrev pub new_video : String → Video
new_video name = record { name = name; interested = []; sequence_number = 0 }

abbrev pub add_interested : SocketAddr → Video → Video
add_interested addr v = record v { interested = add_subscriber addr v.interested }

abbrev pub drop_interested : SocketAddr → Video → Video
drop_interested addr v = record v { interested = drop_subscriber addr v.interested }

module _ ⦃lib : Containers⦄ where
  unfoldable pub new_state : Socket → ℕ → List SocketAddr → State
  new_state clients_socket id neighbours = record {
    id = id;
    videos = new_map;
    clients_socket = clients_socket;
    neighbours = neighbours;
    spawned = [];
  }

  unfoldable pub has_name : State → Option (Option String) → Option Bool
  has_name s none = none
  has_name s (some none) = some false
  has_name s (some (some name)) = some (any (λ e. e.1.name == name) (iter s.videos))

  -- `none` is a panic.
  unfoldable pub contains_video : State → FilePath → List String → Option Bool
  unfolding has_name
  contains_video s path folder = has_name s (get_video_name_from_path path folder)

  unfoldable pub get_video_list : State → List (VideoId × String)
  get_video_list s = map (λ e. (e.0, e.1.name)) (iter s.videos)

  -- What `run_client_socket` does with a packet; one that it does not expect is logged.
  unfoldable pub handle_client_packet : Packet → SocketAddr → State → State
  handle_client_packet (server (request_video v)) addr s = record s {
    videos = modify s.videos v (add_interested addr);
  }
  handle_client_packet (server (stop_video v)) addr s = record s {
    videos = modify s.videos v (drop_interested addr);
  }
  handle_client_packet (node (flood p)) addr s = s
  handle_client_packet (node new_neighbour) addr s = record s {
    neighbours = s.neighbours ++ addr ∷ [];
  }
  handle_client_packet (node (client_ping n requested)) addr s = s
  handle_client_packet (video p) addr s = s
  handle_client_packet (client p) addr s = s
