-- ===== src/Server/Watch.antt =====
-- When a look at the folder panics (server/src/server.rs).
use Prim.Native.String.{String}
use pessi_streamer.Base.{
  ◌≡◌, ◌⊎◌, refl, inl, inr, List, [], ◌∷◌, arith, nat_eq, Bool-cases, Option-cases, In, false,
}
use pessi_streamer.Containers.{Containers}
use pessi_streamer.Common.Packet.{addr_eq}
use pessi_streamer.Common.Effect.{ok, for_each}
use pessi_streamer.Server.Files.{FilePath, get_video_name_from_path, named, strip_prefix}
use pessi_streamer.Server.Encoder.{}
use pessi_streamer.Server.State.{State, contains_video, has_name}
use pessi_streamer.Server.Tasks.{watch_file}

module _ ⦃lib : Containers⦄ where
  watch_file-panics :
      (folder : List String) (path : FilePath) (s : State)
      → ((watch_file folder path s).0 ≡ ok tt) ⊎ (path.name_is_unicode ≡ false)
  unfolding watch_file contains_video has_name get_video_name_from_path named
  watch_file-panics folder path s = elim (Bool-cases path.name_is_unicode) [
    | inr strange ↦ inr strange
    | inl fine ↦ inl (elim (Option-cases (strip_prefix path.folders folder)) [
      | inl outside ↦ ground (arith, fine, outside)
      | inr (rest, inside) ↦ ground (arith, fine, inside)
    ])
  ]

  pub watch_files-panics :
      (folder : List String) (paths : List FilePath) (s : State)
      → ((for_each paths (watch_file folder) s).0 ≡ ok tt)
        ⊎ ((path : FilePath) × In path paths × (path.name_is_unicode ≡ false))
  watch_files-panics folder [] s = inl refl
  watch_files-panics folder (path ∷ paths) s = elim (watch_file-panics folder path s) [
    | inr strange ↦ inr (path, inl refl, strange)
    | inl done ↦ elim (watch_files-panics folder paths (watch_file folder path s).1) [
      | inl all ↦ inl (rw done all)
      | inr (other, there, strange) ↦ inr (other, inr there, strange)
    ]
  ]
