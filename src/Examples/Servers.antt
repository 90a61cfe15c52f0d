-- ===== src/Examples/Servers.antt =====
-- The theorems on the server, the video on its way and the bootstrapper, at concrete ones.
use Prim.Native.String.{String}
use pessi_streamer.Base.{
  ℕ, ◌≡◌, ◌≢◌, ◌⊎◌, Option, none, false, refl, inl, true, some, List, [], ◌∷◌, nat_eq, arith,
  All-lookup, distinct, contains,
}
use pessi_streamer.Containers.{contains_key}
use pessi_streamer.Containers.Assoc.{assoc_containers}
use pessi_streamer.Common.Packet.{SocketAddr, SystemTime}
use pessi_streamer.Common.Effect.{ok, panic, for_each}
use pessi_streamer.Common.Reliable.{Bytes}
use pessi_streamer.Server.State.{State, Video, contains_video, has_name}
use pessi_streamer.Server.Tasks.{
  Selected, ended, fails, received, stream_loop, DirEntry, get_files, watch_file, watch_round,
}
use pessi_streamer.Server.Files.{get_video_name_from_path, named, strip_prefix}
use pessi_streamer.Server.Invariant.{
  IsVideo, IsValid, Event, watches, HasCause, arrives, encodes, react, server_react-Sound, run,
}
use pessi_streamer.Server.Folder.{run-IsListed}
use pessi_streamer.Node.Tasks.{packet_round}
use pessi_streamer.Client.State.{PlayingVideo}
use pessi_streamer.Client.Tasks.{packet_round as client_packet_round}
use pessi_streamer.Client.Playback.{given}
use pessi_streamer.Examples.Clients.{home, watched}
use pessi_streamer.Containers.{get}
use pessi_streamer.Network.Stream.{stream_reaches_viewers}
use pessi_streamer.Bootstrap.{}
use pessi_streamer.Examples.{fresh, tiny_codec, source, relay, viewer, small}

abbrev seven : String → ℕ
seven name = 7

abbrev at_home : SocketAddr → String
at_home addr = "127.0.0.1:5000"

abbrev film : Video
film = record { name = "film"; interested = relay ∷ []; sequence_number = 1 }

abbrev station : State
station = record {
  id = 1;
  videos = (7, film) ∷ [];
  clients_socket = fresh source;
  neighbours = relay ∷ [];
  spawned = [];
}

station-IsValid : IsValid seven station
unfolding distinct contains
station-IsValid = record {
  listed = λ id v found.
      All-lookup (λ e. IsVideo seven e.0 e.1) station.videos id v ((refl, omega arith, refl), tt)
        found;
}

-- A folder with a file whose name is not Unicode.
abbrev strange : List (Option DirEntry)
strange =
    some (record {
      is_file = true;
      path = record {
        folders = "videos" ∷ [];
        stem = "film";
        extension = none;
        is_unicode = false;
        name_is_unicode = false;
      };
    })
    ∷ none
    ∷ []

server_react-Sound_example :
    IsValid seven (react seven at_home 5 (watches strange ("videos" ∷ [])) station).1
    × (((react seven at_home 5 (watches strange ("videos" ∷ [])) station).0 ≢ panic)
        ⊎ HasCause (watches strange ("videos" ∷ [])))
server_react-Sound_example =
    server_react-Sound seven at_home 5 (watches strange ("videos" ∷ [])) station station-IsValid

-- A look at the folder with such a file panics.
watch_panics : (react seven at_home 5 (watches strange ("videos" ∷ [])) station).0 ≡ panic
unfolding react watch_round get_files watch_file contains_video has_name get_video_name_from_path
    named strip_prefix
watch_panics = refl

abbrev later : List (SystemTime × Event)
later = (5, encodes 7 ended) ∷ (6, arrives (some (2 ∷ 0 ∷ 7 ∷ [], relay))) ∷ []

run-IsListed_example : contains_key (run seven at_home later station).videos 7 ≡ true
run-IsListed_example = run-IsListed seven at_home 7 later station refl

abbrev encoded : List Selected
encoded = received (8 ∷ []) ∷ fails ∷ received (9 ∷ []) ∷ ended ∷ received (1 ∷ []) ∷ []

abbrev sent : List Bytes
sent = (3 ∷ 7 ∷ 2 ∷ 8 ∷ []) ∷ (3 ∷ 7 ∷ 3 ∷ 9 ∷ []) ∷ []

stream_reaches_viewers_example :
    let streamed = stream_loop 7 encoded station in
    let relayed = for_each sent (λ b. packet_round 4 (some (b, source))) small in
    let played =
      for_each sent (λ b. client_packet_round 4 (some (b, small.socket.local_addr))) home in
    (streamed.0 ≡ ok tt)
    × (streamed.1.clients_socket.wire
        ≡ (relay, 3 ∷ 7 ∷ 3 ∷ 9 ∷ []) ∷ (relay, 3 ∷ 7 ∷ 2 ∷ 8 ∷ []) ∷ [])
    × (relayed.0 ≡ ok tt)
    × (relayed.1.socket.wire ≡ (viewer, 3 ∷ 7 ∷ 3 ∷ 9 ∷ []) ∷ (viewer, 3 ∷ 7 ∷ 2 ∷ 8 ∷ []) ∷ [])
    × (played.0 ≡ ok tt)
    × ((y : PlayingVideo) × (get played.1.playing_videos 7 ≡ some y)
        × (y.video_player.written ≡ (9 ∷ []) ∷ (8 ∷ []) ∷ []))
unfolding given
stream_reaches_viewers_example =
    stream_reaches_viewers 4 7 encoded sent station film small (viewer ∷ []) home watched refl refl
      (omega arith) (refl, (refl, tt)) (λ c. refl) (inl refl) refl (λ c. refl) refl refl
