-- ===== src/Examples/Exchanges.antt =====
-- The theorems on a ping and a flood packet on their way, at a concrete server, node and client.
use pessi_streamer.Base.{
  ℕ, ◌≡◌, ◌==◌, refl, true, false, none, some, List, [], ◌∷◌, nat_eq, contains, any, retain, In,
  All, if◌then◌else◌,
}
use pessi_streamer.Containers.{get}
use pessi_streamer.Containers.Assoc.{assoc_containers}
use pessi_streamer.Common.Packet.{SocketAddr, addr_eq, FloodPacket, hops}
use pessi_streamer.Common.Effect.{Outcome, ok}
use pessi_streamer.Common.Reliable.{Bytes, receive, send_reliable}
use pessi_streamer.Server.State.{State as ServerState, Video, get_video_list}
use pessi_streamer.Server.Tasks.{flood_round, flood_packet}
use pessi_streamer.Node.State.{State as NodeState, send, active, parent}
use pessi_streamer.Node.Routing.{offers, get_videos, get_parents}
use pessi_streamer.Node.Handle.{has_unwanted, broadcast_targets, handle_packet, handle_flood_packet}
use pessi_streamer.Node.Flood.{flooded, pushed, handle_flood_packet_lem}
use pessi_streamer.Node.Flood.Wire.{IsTold}
use pessi_streamer.Node.Tasks.{packet_round as node_packet_round}
use pessi_streamer.Client.State.{
  State as ClientState, PlayingVideo, mpv, connected, new_node, get_videos_playing_from_node,
}
use pessi_streamer.Client.Tasks.{ping_node, packet_round as client_packet_round}
use pessi_streamer.Network.Ping.{ping_connects}
use pessi_streamer.Network.Flood.{learnt_route, flood_reaches_node}
use pessi_streamer.Examples.{fresh, source, relay, viewer, small}
use pessi_streamer.Examples.Talks.{talk_codec}

abbrev relay_addr : SocketAddr
relay_addr = small.socket.local_addr

abbrev watched : PlayingVideo
watched = record {
  source = some relay_addr;
  video_player = record { player_type = mpv; is_closed = false; written = [] };
  last_sequence_number = 0;
  bytes_written = 0;
}

-- A client that plays video 7 from the node, and has had no answer of it yet.
abbrev watcher : ClientState
watcher = record {
  socket = fresh viewer;
  nodes = (relay_addr, new_node relay_addr) ∷ [];
  pending_pings = [];
  ping_sequence_number = 0;
  video_names = [];
  playing_videos = (7, watched) ∷ [];
  video_player = mpv;
}

ping_connects_example :
    let sent = ping_node 10 relay_addr watcher in
    let answered = node_packet_round 20 (some (1 ∷ 0 ∷ 0 ∷ 7 ∷ [], viewer)) small in
    let heard = (client_packet_round 30 (some (2 ∷ 0 ∷ 0 ∷ 20 ∷ 7 ∷ [], relay_addr)) sent.1).1 in
    (sent.0 ≡ ok tt)
    × (sent.1.socket.wire ≡ (relay_addr, 1 ∷ 0 ∷ 0 ∷ 7 ∷ []) ∷ [])
    × (answered.0 ≡ ok tt)
    × (answered.1.socket.wire ≡ (viewer, 2 ∷ 0 ∷ 0 ∷ 20 ∷ 7 ∷ []) ∷ (viewer, 0 ∷ 0 ∷ []) ∷ [])
    × (get heard.nodes relay_addr
        ≡ some (record {
          addr = relay_addr;
          latest_rtts = 20 ∷ [];
          last_received_ping = some 30;
          status = connected;
          available_videos = 7 ∷ [];
        }))
    × (get heard.pending_pings 0 ≡ none)
unfolding get_videos_playing_from_node retain get_videos any has_unwanted contains
ping_connects_example =
    ping_connects 10 20 30 watcher small (new_node relay_addr) (1 ∷ 0 ∷ 0 ∷ 7 ∷ []) (0 ∷ 0 ∷ [])
      (2 ∷ 0 ∷ 0 ∷ 20 ∷ 7 ∷ []) (0 ∷ 0 ∷ []) refl refl refl refl refl (λ n. refl) (λ n. refl)
      (refl, tt) refl

abbrev film : Video
film = record { name = "seven"; interested = []; sequence_number = 0 }

-- A server with one video.
abbrev station : ServerState
station = record {
  id = 1;
  videos = (7, film) ∷ [];
  clients_socket = fresh source;
  neighbours = relay_addr ∷ [];
  spawned = [];
}

-- The node that the packet has reached, and what it sends on.
abbrev reached : NodeState
reached = (node_packet_round 50 (some (3 ∷ 40 ∷ 7 ∷ 1 ∷ [], source)) small).1

abbrev passed_bytes : ℕ → Bytes
passed_bytes n = 4 ∷ n ∷ 40 ∷ 7 ∷ 1 ∷ 5 ∷ 1 ∷ 8010 ∷ 2 ∷ 8010 ∷ []

flood_reaches_node_example :
    ((flood_round 40 station).0 ≡ ok tt)
    × ((flood_round 40 station).1.clients_socket.wire ≡ (relay_addr, 3 ∷ 40 ∷ 7 ∷ 1 ∷ []) ∷ [])
    × ((node_packet_round 50 (some (3 ∷ 40 ∷ 7 ∷ 1 ∷ [], source)) small).0 ≡ ok tt)
    × (get
          (node_packet_round 50 (some (3 ∷ 40 ∷ 7 ∷ 1 ∷ [], source)) small).1.available_routes
          source
        ≡ some (learnt_route 40 50 source station small))
    × ((learnt_route 40 50 source station small).hops ≡ 1)
    × (offers 7 (source, learnt_route 40 50 source station small) ≡ true)
    × In
        (7, "seven")
        (get_videos (node_packet_round 50 (some (3 ∷ 40 ∷ 7 ∷ 1 ∷ [], source)) small).1 viewer)
    × All
        (IsTold (flood_packet 40 station) reached reached.socket.wire)
        (broadcast_targets source small)
unfolding get_video_list get_videos get_parents any retain broadcast_targets node_packet_round
    receive handle_packet contains send
flood_reaches_node_example =
    flood_reaches_node 40 50 source station small 7 film (3 ∷ 40 ∷ 7 ∷ 1 ∷ []) refl refl refl viewer
      (λ c. refl) refl (λ c. refl) ((λ n. (passed_bytes n, refl)), tt)

-- A flood packet of the server that the relay passed on.
abbrev flooding : FloodPacket
flooding = record {
  created_at_server_time = 1000;
  videos_available = (7, "seven") ∷ [];
  visited_nodes = 2 ∷ [];
  my_parents = [];
}

abbrev told : Outcome Unit × NodeState
told = handle_flood_packet 4000 relay flooding small

abbrev told_bytes : ℕ → Bytes
told_bytes n = 4 ∷ n ∷ 1000 ∷ 7 ∷ 2 ∷ 5 ∷ 1 ∷ 8010 ∷ 2 ∷ 8010 ∷ []

handle_flood_packet_lem_example :
    (told.0 ≡ ok tt)
    × ((a : SocketAddr)
        → get told.1.available_routes a ≡ (
            if relay == a
            then some (record {
              hops = 1;
              last_delays_to_server = 1000 ∷ 3000 ∷ [];
              available_videos = 7 ∷ [];
              status = active;
              node_type = parent (record { parents = []; date_last_flood_packet_received = 4000 });
            })
            else get small.available_routes a))
    × All (IsTold flooding told.1 told.1.socket.wire) (broadcast_targets relay small)
    × (flooded told.1.spawned ≡ pushed (broadcast_targets relay small) [])
unfolding contains get_videos get_parents any retain broadcast_targets handle_flood_packet send
    send_reliable
handle_flood_packet_lem_example =
    handle_flood_packet_lem 4000 relay flooding small refl (λ c. refl)
      ((λ n. (told_bytes n, refl)), tt)

abbrev network : List ℕ
network = 1 ∷ 2 ∷ 5 ∷ []
