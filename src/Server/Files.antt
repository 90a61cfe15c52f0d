-- ===== src/Server/Files.antt =====
-- Paths of video files, their names and ids (server/src/server.rs), and the choice of a codec
-- (server/src/video.rs). A path is its folders, the stem of its last component and that one's
-- extension. Where a text is no valid Unicode it stands for its bytes, and `to_str` does not yield it:
-- `is_unicode` tells this of the path, `name_is_unicode` of what follows the folder, without the
-- extension.
use Prim.Native.String
use Prim.Native.String.{String}
use pessi_streamer.Base.{
  Bool, true, false, Option, none, some, List, [], ◌∷◌, ◌==◌, string_eq, contains, if◌then◌else◌,
}

pub record FilePath : Type 0 where
  pub folders : List String
  pub stem : String
  pub extension : Option String
  pub is_unicode : Bool
  pub name_is_unicode : Bool

-- `with_extension("")`
abbrev pub without_extension : FilePath → FilePath
without_extension p = record p { extension = none }

-- `strip_prefix`, on the folders; `none` is its error.
unfoldable pub strip_prefix : List String → List String → Option (List String)
strip_prefix path [] = some path
strip_prefix [] (f ∷ folder) = none
strip_prefix (p ∷ path) (f ∷ folder) = if p == f then strip_prefix path folder else none

-- The text of a path with no extension.
unfoldable pub joined : List String → String → String
joined [] stem = stem
joined (f ∷ folders) stem = String.◌++◌ f (String.◌++◌ "/" (joined folders stem))

-- `to_str().unwrap().to_string()` of what follows the folder, whose absence is the error.
unfoldable pub named : Bool → Option (List String) → String → Option (Option String)
unfolding joined
named is_unicode none stem = some none
named true (some folders) stem = some (some (joined folders stem))
named false (some folders) stem = none

-- The outer `none` is the panic of the `unwrap`.
unfoldable pub get_video_name_from_path : FilePath → List String → Option (Option String)
unfolding strip_prefix named
get_video_name_from_path path folder =
    named path.name_is_unicode (strip_prefix (without_extension path).folders folder)
      (without_extension path).stem

-- The codecs in order of preference, and the first of them that is among the encoders.
abbrev pub prefered_codecs : List String
prefered_codecs = "hevc_videotoolbox" ∷ "h264_nvenc" ∷ "hevc_amf" ∷ "h264" ∷ "libx264" ∷ []

unfoldable pub find_codec : List String → List String → Option String
find_codec encoders [] = none
find_codec encoders (codec ∷ codecs) =
    if contains encoders codec then some codec else find_codec encoders codecs

unfoldable pub auto_detect_codec : List String → Option String
unfolding find_codec
auto_detect_codec encoders = find_codec encoders prefered_codecs
