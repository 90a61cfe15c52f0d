-- ===== src/Client/View.antt =====
-- What the window shows (client/src/ui.rs): a line for each node, and a row for each stream.
use Prim.Native.String.{String}
use mathlib.Core.Option
use pessi_streamer.Base.{ℕ, Bool, Option, some, List, [], ◌∷◌, nat_eq}
use pessi_streamer.Containers.{Containers, iter, get, contains_key}
use pessi_streamer.Common.Packet.{SocketAddr, addr_eq, VideoId, Duration}
use pessi_streamer.Selection.{and_then}
use pessi_streamer.Client.State.{
  NodeStatus, connecting, connected, unresponsive, Node, PlayingVideo, State, average_rtt,
  available_videos,
}

pub data NodeLine : Type 0 where
  is_connecting is_unresponsive : SocketAddr → NodeLine
  has_average : SocketAddr → Duration → NodeLine

-- The bytes received, and where the video comes from: nowhere yet, where a spinner turns.
pub record Progress : Type 0 where
  pub bytes : ℕ
  pub source : Option SocketAddr

-- The button says "Stop" where `playing`, and "Play" otherwise.
pub record StreamRow : Type 0 where
  pub stream_id : VideoId
  pub stream_name : String
  pub playing : Bool
  pub progress : Option Progress

pub record View : Type 0 where
  pub lines : List NodeLine
  pub rows : List StreamRow

-- `none` is a panic, in all that follows.
unfoldable pub all_some : {A B : Type 0} → (A → Option B) → List A → Option (List B)
all_some f [] = some []
all_some f (x ∷ xs) = and_then (f x) λ y. and_then (all_some f xs) λ ys. some (y ∷ ys)

module _ ⦃lib : Containers⦄ where
  unfoldable pub status_line : SocketAddr → NodeStatus → Option Duration → Option NodeLine
  status_line addr connecting average = some (is_connecting addr)
  status_line addr connected average = Option.map (has_average addr) average
  status_line addr unresponsive average = some (is_unresponsive addr)

  unfoldable pub node_line : Node → Option NodeLine
  unfolding status_line
  node_line n = status_line n.addr n.status (average_rtt n)

  abbrev pub progress_of : PlayingVideo → Progress
  progress_of v = record { bytes = v.bytes_written; source = v.source }

  -- The `unwrap` panics where a listed stream has no name.
  unfoldable pub stream_row : State → VideoId → Option StreamRow
  stream_row s stream_id =
      Option.map
        (λ name. record {
          stream_id = stream_id;
          stream_name = name;
          playing = contains_key s.playing_videos stream_id;
          progress = Option.map progress_of (get s.playing_videos stream_id);
        })
        (get s.video_names stream_id)

  -- One call of `update`.
  unfoldable pub view : State → Option View
  unfolding all_some node_line stream_row
  view s = and_then (all_some (λ e. node_line e.1) (iter s.nodes)) λ lines.
      and_then (all_some (stream_row s) (available_videos s))
        λ rows. some (record { lines = lines; rows = rows })
