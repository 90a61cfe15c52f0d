-- ===== src/Server/Codec.antt =====
-- The codec that a video's encoder is given (server/src/video.rs).
use Prim.Native.String
use Prim.Native.String.{String}
use pessi_streamer.Base.{
  string_eq, ◌≡◌, ◌⊎◌, refl, ap, inl, inr, true, false, Option, none, some, List, [], ◌∷◌, ◌++◌,
  contains, All, Bool-cases,
}
use pessi_streamer.Server.Files.{FilePath, find_codec, prefered_codecs, auto_detect_codec}
use pessi_streamer.Server.Text.{split}
use pessi_streamer.Common.Packet.{SocketAddr}
use pessi_streamer.Server.Encoder.{
  Environment, Child, Failure, file_missing, not_bound, no_codec, not_spawned, not_in_folder,
  panicked, path_str,
}

-- The first of the codecs that is among the encoders, or none of them is.
abbrev pub IsFirstCodec : List String → List String → Option String → Type 0
IsFirstCodec encoders codecs none = All (λ c. contains encoders c ≡ false) codecs
IsFirstCodec encoders codecs (some codec) =
    (before : List String) × (after : List String) × (codecs ≡ before ++ codec ∷ after)
    × All (λ c. contains encoders c ≡ false) before
    × (contains encoders codec ≡ true)

IsFirstCodec-later :
    (encoders codecs : List String) (c : String) (o : Option String)
    → contains encoders c ≡ false
    → IsFirstCodec encoders codecs o
    → IsFirstCodec encoders (c ∷ codecs) o
IsFirstCodec-later encoders codecs c none missing h = (missing, h)
IsFirstCodec-later encoders codecs c (some codec) missing (before, after, split, others, there) =
    (c ∷ before, after, ap (λ l. c ∷ l) split, (missing, others), there)

find_codec_lem :
    (encoders codecs : List String) → IsFirstCodec encoders codecs (find_codec encoders codecs)
unfolding find_codec
find_codec_lem encoders [] = tt
find_codec_lem encoders (c ∷ cs) = elim (Bool-cases (contains encoders c)) [
  | inl there ↦ rw there ([], cs, refl, tt, there)
  | inr missing ↦ rw missing (
      IsFirstCodec-later encoders cs c (find_codec encoders cs) missing
        (find_codec_lem encoders cs))
]

-- The encoder gets the first of the preferred codecs that `ffmpeg` lists, and the video is not
-- started exactly if it lists none of them.
pub auto_detect_codec_lem :
    (encoders : List String) → IsFirstCodec encoders prefered_codecs (auto_detect_codec encoders)
unfolding auto_detect_codec
auto_detect_codec_lem encoders = find_codec_lem encoders prefered_codecs

-- What the start of a video comes to, where `ffmpeg` lists the encoders: each error with its cause, or
-- the socket that was bound, and a process.
abbrev pub Chosen :
    Environment
    → (SocketAddr → String)
    → FilePath
    → List String
    → Failure ⊎ (SocketAddr × Child)
    → Type 0
Chosen env show path encoders (inl file_missing) = env.exists ≡ false
Chosen env show path encoders (inl not_bound) = env.bound ≡ none
Chosen env show path encoders (inl no_codec) = IsFirstCodec encoders prefered_codecs none
Chosen env show path encoders (inl panicked) = (env.has_version ≡ false) ⊎ (path.is_unicode ≡ false)
Chosen env show path encoders (inl not_spawned) = env.spawns ≡ false
Chosen env show path encoders (inl not_in_folder) = ⊥
Chosen env show path encoders (inr (addr, child)) =
    (env.bound ≡ some addr)
    × (codec : String) × IsFirstCodec encoders prefered_codecs (some codec)
    × (child ≡ record {
      program = "ffmpeg";
      args =
          "-re"
          ∷ "-stream_loop"
          ∷ "-1"
          ∷ "-i"
          ∷ path_str path
          ∷ "-c:v"
          ∷ codec
          ∷ "-b:v"
          ∷ "8M"
          ∷ "-c:a"
          ∷ "aac"
          ∷ "-g"
          ∷ "30"
          ∷ "-f"
          ∷ "mpegts"
          ∷ String.◌++◌ "udp://" (show addr)
          ∷ [];
    })
