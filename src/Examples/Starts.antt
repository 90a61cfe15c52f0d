-- ===== src/Examples/Starts.antt =====
-- The theorems on the starts and the runs of the programs, and on the encoder's launch.
use Prim.Native.String.{String}
use pessi_streamer.Base.{
  ℕ, ◌≡◌, ◌⊎◌, refl, true, false, Bool, Option, none, some, List, [], ◌∷◌, In, nat_eq, string_eq,
  retain,
}
use pessi_streamer.Containers.{get}
use pessi_streamer.Containers.Assoc.{assoc_containers}
use pessi_streamer.Common.Packet.{addr_eq, IpAddr, SocketAddr, VideoId, SystemTime}
use pessi_streamer.Common.Effect.{ok, err, panic, io_error}
use pessi_streamer.Node.State.{State as NodeState, send}
use pessi_streamer.Node.Redirect.{request_video_to_node}
use pessi_streamer.Common.Reliable.{send_reliable}
use pessi_streamer.Node.Tasks.{
  Event as NodeEvent, checks_clients, checks_videos, react, client_health_check_round,
  video_health_check_round,
}
use pessi_streamer.Server.Files.{FilePath}
use pessi_streamer.Server.Text.{chars, text as text_of}
use pessi_streamer.Server.Encoder.{Environment}
use pessi_streamer.Server.Listing.{Encoder, Row, encoder, other, printed}
use pessi_streamer.Server.State.{State as ServerState}
use pessi_streamer.Client.State.{State as ClientState, mpv, new_node}
use pessi_streamer.Client.Player.{Command, check_installation}
use pessi_streamer.Client.Invariant.{IsValid}
use pessi_streamer.Start.{at_port, start_client}
use pessi_streamer.Start.Mains.{node_main}
use pessi_streamer.Start.Select.{select_loop}
use pessi_streamer.Start.Clients.{start_client_lem}
use pessi_streamer.Examples.{tiny_codec, viewer, small, up}
use pessi_streamer.Examples.Bootstraps.{short_codec}

abbrev text : List Row → String
text rows = text_of (printed rows)

abbrev h264 : Encoder
h264 = record { flags = chars "."; name = chars "h264"; description = chars "x" }

abbrev rows : List Row
rows = other (chars "--") ∷ encoder h264 ∷ []

abbrev environment : Environment
environment = record {
  exists = true;
  bound = some viewer;
  encoders = some (text rows);
  has_version = true;
  spawns = true;
}

abbrev film : FilePath
film = record {
  folders = "videos" ∷ [];
  stem = "film";
  extension = some "mp4";
  is_unicode = true;
  name_is_unicode = true;
}

abbrev at_home : SocketAddr → String
at_home addr = "127.0.0.1:5000"

-- A node whose sends fail, and that waits for video 7.
abbrev mute : NodeState
mute = record small {
  last_video_packet_time = (7, 0) ∷ [];
  socket = record small.socket { fate = λ n. false };
}

abbrev stalls : List (SystemTime × NodeEvent)
stalls = (5, checks_clients) ∷ (1_000_000_000, checks_videos) ∷ []

-- One request of its video health check that cannot be sent ends it.
mute_ends : (node_main stalls mute).0 ≡ false
unfolding select_loop react client_health_check_round retain video_health_check_round
    request_video_to_node send send_reliable
mute_ends = refl

abbrev configured : String → Option (List (IpAddr × List IpAddr))
configured config = some ((2, 1 ∷ 9 ∷ []) ∷ [])

abbrev by_name : String → ℕ
by_name name = 7

abbrev installed : Command → Option Bool
installed command = some true

start_client_lem_example :
    ((start_client installed true viewer up (1 ∷ []) mpv ≡ panic)
      × (check_installation installed mpv ≡ false))
    ⊎ ((start_client installed true viewer up (1 ∷ []) mpv ≡ err io_error) × (true ≡ false))
    ⊎ ((s : ClientState) × (start_client installed true viewer up (1 ∷ []) mpv ≡ ok s)
        × ((ip : IpAddr) → In ip (1 ∷ []) → get s.nodes (at_port ip) ≡ some (new_node (at_port ip)))
        × ((v : VideoId) → get s.playing_videos v ≡ none)
        × IsValid s)
start_client_lem_example = start_client_lem installed true viewer up (1 ∷ []) mpv
