-- ===== src/Examples/Clients.antt =====
-- The theorems on the client, at a client with two nodes.
use mathlib.Core.Option
use pessi_streamer.Base.{
  any, ◌≡◌, ◌≢◌, ◌⊎◌, true, false, none, some, List, [], ◌∷◌, nat_eq, arith, All-lookup, contains,
  is_some,
}
use pessi_streamer.Containers.{get}
use pessi_streamer.Containers.Assoc.{assoc_containers}
use pessi_streamer.Common.Packet.{SocketAddr, addr_eq, VideoId}
use pessi_streamer.Common.Effect.{ok, panic, Sound}
use pessi_streamer.Common.Reliable.{Bytes}
use pessi_streamer.Client.State.{
  available_videos, State, Node, PlayingVideo, connected, mpv, is_connected, average_rtt, sum,
  select_best_node, offers,
}
use pessi_streamer.Selection.{
  select, averages, minimum, within, min_by_key, min_by_key_from, max_delay_threshold, least_from,
}
use pessi_streamer.Base.{retain}
use pessi_streamer.Client.Handle.{give_source_during, ui_stop_playing_id}
use pessi_streamer.Client.Tasks.{checks_nodes, react, unresponsive_round, is_silent}
use pessi_streamer.Client.View.{view}
use pessi_streamer.Client.Best.{AreMeasured, IsBestNode, select_best_node_lem}
use pessi_streamer.Client.Invariant.{IsValid}
use pessi_streamer.Client.Invariant.Runs.{client_react-Sound}
use pessi_streamer.Client.Invariant.Window.{view-ne-none}
use pessi_streamer.Client.Listing.{IsAscending, available_videos_lem}
use pessi_streamer.Client.Redirection.{is_played_from}
use pessi_streamer.Client.Health.{expire, unresponsive_round_lem}
use pessi_streamer.Client.Playback.{stopped_meanwhile_panics}
use pessi_streamer.Examples.{tiny_codec, source, relay, viewer, up}

abbrev silent : Node
silent = record {
  addr = source;
  latest_rtts = 5 ∷ [];
  last_received_ping = some 0;
  status = connected;
  available_videos = 7 ∷ [];
}

abbrev answering : Node
answering = record {
  addr = relay;
  latest_rtts = 6 ∷ 8 ∷ [];
  last_received_ping = some 9_000_000_000;
  status = connected;
  available_videos = 7 ∷ [];
}

abbrev pub watched : PlayingVideo
watched = record {
  source = some source;
  video_player = record { player_type = mpv; is_closed = false; written = [] };
  last_sequence_number = 1;
  bytes_written = 0;
}

-- It plays video 7 from a node that went silent; another one has it too.
abbrev pub home : State
home = record {
  socket = record {
    local_addr = viewer;
    pending_packets = [];
    sequence_number = 0;
    tasks = [];
    results = [];
    wire = [];
    calls = 0;
    fate = up;
  };
  nodes = (source, silent) ∷ (relay, answering) ∷ [];
  pending_pings = [];
  ping_sequence_number = 0;
  video_names = (7, "seven") ∷ [];
  playing_videos = (7, watched) ∷ [];
  video_player = mpv;
}

home-AreMeasured : AreMeasured home
unfolding average_rtt sum
home-AreMeasured a n found =
    All-lookup (λ e. is_connected e.1.status ≡ true → average_rtt e.1 ≢ none) home.nodes a n
      ((λ on p. cc), ((λ on p. cc), tt)) found

home-IsValid : IsValid home
unfolding contains
home-IsValid = record {
  measured = home-AreMeasured;
  named = λ a n found v offered.
      All-lookup
        (λ e.
          (w : VideoId)
          → contains e.1.available_videos w ≡ true
          → is_some (get home.video_names w) ≡ true)
        home.nodes a n ((λ w h. ground (arith, h)), ((λ w h. ground (arith, h)), tt)) found v
        offered;
}

client_react-Sound_example : Sound IsValid (react 9_500_000_000 checks_nodes home)
client_react-Sound_example = client_react-Sound 9_500_000_000 checks_nodes home home-IsValid

view-ne-none_example : view home ≢ none
view-ne-none_example = view-ne-none home home-IsValid

select_best_node_lem_example :
    ((select_best_node home 7 ≡ some none)
      × ((b : SocketAddr) (n : Node) → get home.nodes b ≡ some n → offers 7 (b, n) ≡ false))
    ⊎ ((addr : SocketAddr) × (select_best_node home 7 ≡ some (some addr)) × IsBestNode home 7 addr)
select_best_node_lem_example = select_best_node_lem home 7 home-AreMeasured

unresponsive_round_lem_example :
    let t = (unresponsive_round 9_500_000_000 home).1 in
    ((unresponsive_round 9_500_000_000 home).0 ≡ ok tt)
    × ((a : SocketAddr) → get t.nodes a ≡ Option.map (expire 9_500_000_000) (get home.nodes a))
    × ((a : SocketAddr) (n : Node)
        → get home.nodes a ≡ some n
        → is_silent 9_500_000_000 n ≡ true
        → (v : VideoId) → is_played_from t a v ≡ false)
unresponsive_round_lem_example = unresponsive_round_lem 9_500_000_000 home home-AreMeasured

abbrev sent : List Bytes
sent = (3 ∷ 7 ∷ 2 ∷ 8 ∷ []) ∷ (3 ∷ 7 ∷ 3 ∷ 9 ∷ []) ∷ []

stopped_meanwhile_panics_example :
    (give_source_during 5 (λ t. (ui_stop_playing_id 5 7 t).1) 7 home).0 ≡ panic
unfolding select_best_node select average_rtt retain contains averages minimum within min_by_key
    min_by_key_from max_delay_threshold least_from sum
stopped_meanwhile_panics_example = stopped_meanwhile_panics 5 7 home (λ p. cc)

available_videos_lem_example :
    IsAscending (available_videos home)
    × ((v : VideoId)
        → contains (available_videos home) v
          ≡ any (λ e. contains e.1.available_videos v) home.nodes)
available_videos_lem_example = available_videos_lem home
