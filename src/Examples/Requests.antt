-- ===== src/Examples/Requests.antt =====
-- The theorem on a click and what it leads to, at a concrete client, node and server.
use pessi_streamer.Base.{◌≡◌, refl, inl, List, arith, true, some, [], ◌∷◌, nat_eq, contains, retain}
use pessi_streamer.Containers.{get}
use pessi_streamer.Containers.Assoc.{assoc_containers}
use pessi_streamer.Common.Packet.{SocketAddr, addr_eq}
use pessi_streamer.Common.Effect.{ok, for_each}
use pessi_streamer.Selection.{
  select, averages, minimum, within, min_by_key, max_delay_threshold, least_from, min_by_key_from,
}
use pessi_streamer.Node.State.{sum, average_delay_to_server}
use pessi_streamer.Node.Routing.{get_best_node_to_redirect}
use pessi_streamer.Node.Subscriptions.{subscribers}
use pessi_streamer.Node.Tasks.{packet_round as node_packet_round}
use pessi_streamer.Server.State.{State as ServerState, Video}
use pessi_streamer.Server.Tasks.{Selected, ended, fails, received, stream_loop, client_socket_round}
use pessi_streamer.Server.Stream.{broadcasts}
use pessi_streamer.Common.Subscribers.{add_subscriber}
use pessi_streamer.Common.Reliable.{Bytes}
use pessi_streamer.Client.Tasks.{packet_round as client_packet_round}
use pessi_streamer.Client.Playback.{given}
use pessi_streamer.Client.State.{
  State as ClientState, Node, PlayingVideo, connected, mpv, select_best_node, average_rtt,
}
use pessi_streamer.Client.Handle.{ui_start_playing}
use pessi_streamer.Network.Watch.{click_shows_video}
use pessi_streamer.Examples.{fresh, tiny_codec, relay, viewer, unrouted}

abbrev near : SocketAddr
near = unrouted.socket.local_addr

abbrev answered : Node
answered = record {
  addr = near;
  latest_rtts = 1000 ∷ [];
  last_received_ping = some 4;
  status = connected;
  available_videos = 7 ∷ [];
}

abbrev watcher : ClientState
watcher = record {
  socket = fresh viewer;
  nodes = (near, answered) ∷ [];
  pending_pings = [];
  ping_sequence_number = 0;
  video_names = (7, "seven") ∷ [];
  playing_videos = [];
  video_player = mpv;
}

abbrev film : Video
film = record { name = "seven"; interested = []; sequence_number = 1 }

-- A server with one video.
abbrev station : ServerState
station = record {
  id = 1;
  videos = (7, film) ∷ [];
  clients_socket = fresh relay;
  neighbours = near ∷ [];
  spawned = [];
}

abbrev encoded : List Selected
encoded = received (8 ∷ []) ∷ fails ∷ received (9 ∷ []) ∷ ended ∷ []

abbrev packets : List Bytes
packets = (3 ∷ 7 ∷ 2 ∷ 8 ∷ []) ∷ (3 ∷ 7 ∷ 3 ∷ 9 ∷ []) ∷ []

click_shows_video_example :
    let asked = ui_start_playing 5 true 7 watcher in
    let passed = node_packet_round 6 (some (1 ∷ 0 ∷ 7 ∷ [], viewer)) unrouted in
    let listed = client_socket_round 7 (some (1 ∷ 0 ∷ 7 ∷ [], near)) station in
    let viewers = add_subscriber viewer (subscribers unrouted 7) in
    let sent = stream_loop 7 encoded listed.1 in
    let relayed =
      for_each packets
        (λ m. node_packet_round 9 (some (m, listed.1.clients_socket.local_addr)))
        passed.1 in
    let played =
      for_each packets
        (λ m. client_packet_round 9 (some (m, passed.1.socket.local_addr)))
        asked.1 in
    (asked.0 ≡ ok tt)
    × (asked.1.socket.wire ≡ (near, 1 ∷ 0 ∷ 7 ∷ []) ∷ [])
    × (passed.0 ≡ ok tt)
    × (passed.1.socket.wire ≡ (relay, 1 ∷ 0 ∷ 7 ∷ []) ∷ (viewer, 0 ∷ 0 ∷ []) ∷ [])
    × (get passed.1.video_routes 7 ≡ some relay)
    × (listed.0 ≡ ok tt)
    × (listed.1.clients_socket.wire ≡ (near, 0 ∷ 0 ∷ []) ∷ [])
    × (contains viewers viewer ≡ true)
    × (sent.0 ≡ ok tt)
    × (sent.1.clients_socket.wire ≡ broadcasts packets (near ∷ []) listed.1.clients_socket.wire)
    × (relayed.0 ≡ ok tt)
    × (relayed.1.socket.wire ≡ broadcasts packets viewers passed.1.socket.wire)
    × (played.0 ≡ ok tt)
    × ((y : PlayingVideo) × (get played.1.playing_videos 7 ≡ some y)
        × (y.video_player.written ≡ (9 ∷ []) ∷ (8 ∷ []) ∷ []))
unfolding get_best_node_to_redirect select_best_node average_rtt select averages retain contains
    average_delay_to_server sum minimum within min_by_key max_delay_threshold least_from
    min_by_key_from given
click_shows_video_example =
    click_shows_video 5 6 7 9 7 watcher unrouted station film (1 ∷ 0 ∷ 7 ∷ []) (0 ∷ 0 ∷ [])
      (1 ∷ 0 ∷ 7 ∷ []) (0 ∷ 0 ∷ []) encoded packets refl refl refl refl refl refl refl refl
      (λ n. refl) (λ n. refl) (λ n. refl) (inl refl) (omega arith) (refl, (refl, tt))
