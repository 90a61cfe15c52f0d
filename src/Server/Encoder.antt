-- ===== src/Server/Encoder.antt =====
-- The encoder's process (server/src/video.rs): the encoders that `ffmpeg` lists, the choice among
-- them, and the command line. What the processes and the system answer is the environment's.
use Prim.Native.Char.{Char}
use Prim.Native.String
use Prim.Native.String.{String}
use mathlib.Core.Option
use pessi_streamer.Base.{
  ◌⊎◌, inl, inr, Bool, Option, none, some, List, [], ◌∷◌, map, retain, if◌then◌else◌,
}
use pessi_streamer.Common.Packet.{SocketAddr}
use pessi_streamer.Selection.{and_then}
use pessi_streamer.Server.Files.{FilePath, joined, auto_detect_codec}
use pessi_streamer.Server.Text.{chars, text, trim, lines, starts_with, split, nth}

-- `map(|line| line.split(' ').nth(1).unwrap().to_string()).collect()`; `none` is a panic.
unfoldable pub second_words : List (List Char) → Option (List String)
second_words [] = some []
second_words (line ∷ rest) =
    let names = second_words rest in
    and_then (nth 1 (split line)) λ name. Option.map (λ ns. text name ∷ ns) names

-- The names in what `ffmpeg -encoders` writes, which is valid Unicode.
unfoldable pub encoder_names : List Char → Option (List String)
unfolding second_words
encoder_names stdout = second_words (retain (starts_with b'V') (map trim (lines stdout)))

-- `none` is a panic, as where `ffmpeg` cannot be run.
unfoldable pub list_encoders : Option String → Option (List String)
unfolding encoder_names
list_encoders output = and_then output λ stdout. encoder_names (chars stdout)

-- What the system and the processes answer: whether the file exists, the address of the socket
-- that is bound, what `ffmpeg -encoders` writes, whether `ffmpeg` tells its version and is spawned.
pub record Environment : Type 0 where
  pub exists : Bool
  pub bound : Option SocketAddr
  pub encoders : Option String
  pub has_version : Bool
  pub spawns : Bool

-- Why a video is not started, by an error or by a panic of its task.
pub data Failure : Type 0 where
  file_missing not_bound no_codec not_spawned not_in_folder panicked : Failure

-- A spawned process: the program and its arguments.
pub record Child : Type 0 where
  pub program : String
  pub args : List String

abbrev pub file_name : String → Option String → String
file_name stem none = stem
file_name stem (some extension) = String.◌++◌ stem (String.◌++◌ "." extension)

-- `to_str`
abbrev pub path_str : FilePath → String
path_str p = joined p.folders (file_name p.stem p.extension)

abbrev pub ffmpeg_args : FilePath → String → String → List String
ffmpeg_args video_path send_to_path codec_video =
    "-re"
    ∷ "-stream_loop"
    ∷ "-1"
    ∷ "-i"
    ∷ path_str video_path
    ∷ "-c:v"
    ∷ codec_video
    ∷ "-b:v"
    ∷ "8M"
    ∷ "-c:a"
    ∷ "aac"
    ∷ "-g"
    ∷ "30"
    ∷ "-f"
    ∷ "mpegts"
    ∷ send_to_path
    ∷ []

unfoldable pub launch_video_process : Environment → FilePath → String → String → Failure ⊎ Child
launch_video_process env video_path send_to_path codec_video =
    if env.has_version
    then if video_path.is_unicode
      then if env.spawns
        then inr
            (record { program = "ffmpeg"; args = ffmpeg_args video_path send_to_path codec_video })
        else inl not_spawned
      else inl panicked
    else inl panicked

-- `show` is `Display` of the standard library's socket addresses.
module _ (show : SocketAddr → String) (env : Environment) (video_path : FilePath) where
  unfoldable pub launch_with : SocketAddr → Option String → Failure ⊎ (SocketAddr × Child)
  unfolding launch_video_process
  launch_with addr none = inl no_codec
  launch_with addr (some codec) =
      elim (launch_video_process env video_path (String.◌++◌ "udp://" (show addr)) codec) [
        | inl e ↦ inl e
        | inr child ↦ inr (addr, child)
      ]

  unfoldable pub detect_and_launch :
      SocketAddr → Option (List String) → Failure ⊎ (SocketAddr × Child)
  unfolding launch_with
  detect_and_launch addr none = inl panicked
  detect_and_launch addr (some encoders) = launch_with addr (auto_detect_codec encoders)

  -- The socket that the encoder sends to, and its process.
  unfoldable pub new_video_process : Failure ⊎ (SocketAddr × Child)
  unfolding detect_and_launch
  new_video_process =
      if env.exists
      then elim env.bound [
        | none ↦ inl not_bound
        | some addr ↦ detect_and_launch addr (list_encoders env.encoders)
      ]
      else inl file_missing
