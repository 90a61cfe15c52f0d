-- ===== src/Server/Folder.antt =====
-- The videos of the folder (server/src/server.rs): what a launch lists, and what stays listed.
use Prim.Native.String.{String}
use pessi_streamer.Base.{
  string_eq, ℕ, ◌≡◌, ◌∙◌, refl, ap, inl, inr, ◌⊎◌, true, false, Option, none, some, List, [], ◌∷◌,
  arith, nat_eq, is_empty, is_some, Option-cases, Bool-cases, ==_refl, ◌==◌,
}
use pessi_streamer.Containers.{
  Containers, Map, get, insert, modify, get-insert, entry_of_get, contains_key,
}
use pessi_streamer.Common.Packet.{
  SocketAddr, addr_eq, VideoId, SystemTime, Packet, video, node, server, client, client_ping,
  new_neighbour, flood, request_video, stop_video,
}
use pessi_streamer.Common.Effect.{
  Outcome, ok, err, panic, blocked, pure, continue_keeps, for_each, for_each_keeps, bind-ok,
}
use pessi_streamer.Common.Reliable.{Codec, Bytes}
use pessi_streamer.Server.Files.{FilePath, get_video_name_from_path}
use pessi_streamer.Server.Encoder.{Failure, Child, Environment, new_video_process}
use pessi_streamer.Server.State.{
  State, Video, new_video, has_name, contains_video, handle_client_packet,
}
use pessi_streamer.Server.Tasks.{
  dispatch, client_socket_round, stream_to, stream_datagram, flood_round, register,
  start_streaming_video, start_with, Selected, ended, fails, received, stream_round, DirEntry,
  get_files, watch_file, watch_round,
}
use pessi_streamer.Server.Invariant.{Event, arrives, encodes, floods, watches, launches, react, run}

-- The entry of a file.
abbrev found : FilePath → Option DirEntry
found path = some (record { is_file = true; path = path })

module _ ⦃lib : Containers⦄ (hash : String → ℕ) where
  known_of_listed :
      (path : FilePath) (folder : List String) (name : String) (t : State) (id : VideoId)
      → get_video_name_from_path path folder ≡ some (some name)
      → get t.videos id ≡ some (new_video name)
      → contains_video t path folder ≡ some true
  unfolding contains_video has_name
  known_of_listed path folder name t id found listed = rw found (
      ap some
        (entry_of_get t.videos (λ e. e.1.name == name) id (new_video name) listed (==_refl name)))

  watch_round-skips :
      (path : FilePath) (entries : List (Option DirEntry)) (folder : List String) (t : State)
      → contains_video t path folder ≡ some true
      → watch_round (found path ∷ entries) folder t ≡ watch_round entries folder t
  unfolding watch_round get_files watch_file
  watch_round-skips path entries folder t known =
      let skipped : watch_file folder path t ≡ (ok tt, t) = rw (known, watch_file) refl in
      bind-ok (watch_file folder path) (λ _. for_each (get_files entries) (watch_file folder)) t
        skipped

  -- Where the encoder is launched, the file is listed under the id of its name, as a new video without
  -- subscribers, whatever was listed there before; no other id changes, and the next look at the
  -- folder does not start the file again.
  pub launch_lem :
      (show : SocketAddr → String) (env : Environment) (launched : SocketAddr × Child)
      (path : FilePath) (folder : List String) (name : String) (s : State)
      → new_video_process show env path ≡ inr launched
      → get_video_name_from_path path folder ≡ some (some name)
      → let (r, t) = start_streaming_video hash show env path folder s in
        (r ≡ inr (hash name))
        × (get t.videos (hash name) ≡ some (new_video name))
        × ((id : VideoId) → (hash name == id) ≡ false → get t.videos id ≡ get s.videos id)
        × ((entries : List (Option DirEntry))
            → watch_round (found path ∷ entries) folder t ≡ watch_round entries folder t)
  launch_lem show env launched path folder name s runs named =
      let id = hash name in
      let m = start_streaming_video hash show env path folder s in
      let started : m ≡ register hash (some (some name)) s =
        unfold start_streaming_video start_with in rw (runs, named) refl in
      let listed : get m.1.videos id ≡ some (new_video name) =
        ap (λ u. get u.1.videos id) started
        ∙ unfold register in (get-insert s.videos id (new_video name) id ∙ rw (==_refl id) refl) in
      (
        ap (λ u. u.0) started ∙ unfold register in refl,
        listed,
        (λ j other.
            ap (λ u. get u.1.videos j) started
            ∙ unfold register in (get-insert s.videos id (new_video name) j ∙ rw other refl)),
        λ entries.
            watch_round-skips path entries folder m.1
              (known_of_listed path folder name m.1 id named listed),
      )

module _ ⦃lib : Containers⦄ ⦃codec : Codec Packet⦄ (hash : String → ℕ)
    (show : SocketAddr → String) where
  abbrev IsListed : VideoId → Map VideoId Video → Type 0
  IsListed id m = is_some (get m id) ≡ true

  insert-IsListed :
      (id v : VideoId) (x : Video) (m : Map VideoId Video)
      → IsListed id m
      → IsListed id (insert m v x)
  insert-IsListed id v x m h = ground (arith, h, get-insert m v x id)

  modify-IsListed :
      (id v : VideoId) (f : Video → Video) (m : Map VideoId Video)
      → IsListed id m
      → IsListed id (modify m v f)
  modify-IsListed id v f m h = elim (Option-cases (get m v)) [
    | inl missing ↦ rw (missing, modify) h
    | inr (x, found) ↦ rw (found, modify) (insert-IsListed id v (f x) m h)
  ]

  handle_client_packet-IsListed :
      (id : VideoId) (p : Packet) (addr : SocketAddr) (s : State)
      → IsListed id s.videos
      → IsListed id (handle_client_packet p addr s).videos
  unfolding handle_client_packet
  handle_client_packet-IsListed id (server (request_video v)) addr s h =
      modify-IsListed id v _ s.videos h
  handle_client_packet-IsListed id (server (stop_video v)) addr s h =
      modify-IsListed id v _ s.videos h
  handle_client_packet-IsListed id (node (flood p)) addr s h = h
  handle_client_packet-IsListed id (node new_neighbour) addr s h = h
  handle_client_packet-IsListed id (node (client_ping n requested)) addr s h = h
  handle_client_packet-IsListed id (video p) addr s h = h
  handle_client_packet-IsListed id (client p) addr s h = h

  dispatch-IsListed :
      (id : VideoId) (r : Outcome (Option (Packet × SocketAddr))) (s : State)
      → IsListed id s.videos
      → IsListed id (dispatch r s).1.videos
  unfolding dispatch
  dispatch-IsListed id (ok (some (p, addr))) s h = handle_client_packet-IsListed id p addr s h
  dispatch-IsListed id (ok none) s h = h
  dispatch-IsListed id (err e) s h = h
  dispatch-IsListed id panic s h = h
  dispatch-IsListed id blocked s h = h

  stream_to-IsListed :
      (id v : VideoId) (bytes : Bytes) (o : Option Video) (s : State)
      → IsListed id s.videos
      → IsListed id (stream_to v bytes o s).1.videos
  unfolding stream_to
  stream_to-IsListed id v bytes none s h = h
  stream_to-IsListed id v bytes (some x) s h = elim (Bool-cases (is_empty x.interested)) [
    | inl alone ↦ rw alone h
    | inr some_one ↦ rw some_one (insert-IsListed id v _ s.videos h)
  ]

  register-IsListed :
      (id : VideoId) (o : Option (Option String)) (s : State)
      → IsListed id s.videos
      → IsListed id (register hash o s).1.videos
  unfolding register
  register-IsListed id none s h = h
  register-IsListed id (some none) s h = h
  register-IsListed id (some (some name)) s h =
      insert-IsListed id (hash name) (new_video name) s.videos h

  stream_round-IsListed :
      (id v : VideoId) (e : Selected) (s : State)
      → IsListed id s.videos
      → IsListed id (stream_round v e s).1.videos
  unfolding stream_round stream_datagram
  stream_round-IsListed id v ended s h = h
  stream_round-IsListed id v fails s h = h
  stream_round-IsListed id v (received bytes) s h =
      let listed = stream_to-IsListed id v bytes (get s.videos v) s h in
      continue_keeps (λ t. IsListed id t.videos) (stream_to v bytes (get s.videos v) s)
        (λ _. pure true) listed (λ _ _. listed)

  start_with-IsListed :
      (id : VideoId) (r : Failure ⊎ (SocketAddr × Child)) (path : FilePath) (folder : List String)
      (s : State)
      → IsListed id s.videos
      → IsListed id (start_with hash r path folder s).1.videos
  unfolding start_with
  start_with-IsListed id (inl e) path folder s h = h
  start_with-IsListed id (inr launched) path folder s h =
      register-IsListed id (get_video_name_from_path path folder) s h

  watch_file-IsListed :
      (id : VideoId) (folder : List String) (path : FilePath) (s : State)
      → IsListed id s.videos
      → IsListed id (watch_file folder path s).1.videos
  unfolding watch_file
  watch_file-IsListed id folder path s h = elim (Option-cases (contains_video s path folder)) [
    | inl panics ↦ rw (panics, watch_file) h
    | inr (known, there) ↦ elim (Bool-cases known) [
      | inl listed ↦ rw (there, listed, watch_file) h
      | inr new ↦ rw (there, new, watch_file) h
    ]
  ]

  react-IsListed :
      (id : VideoId) (now : SystemTime) (e : Event) (s : State)
      → IsListed id s.videos
      → IsListed id (react hash show now e s).1.videos
  unfolding react client_socket_round stream_datagram flood_round watch_round start_streaming_video
  react-IsListed id now (arrives datagram) s h = dispatch-IsListed id _ _ h
  react-IsListed id now (encodes v selected) s h =
      continue_keeps (λ t. IsListed id t.videos) (stream_round v selected s) (λ _. pure tt)
        (stream_round-IsListed id v selected s h) (λ _ _. stream_round-IsListed id v selected s h)
  react-IsListed id now floods s h = h
  react-IsListed id now (watches entries folder) s h =
      for_each_keeps (λ t. IsListed id t.videos) (get_files entries) (watch_file folder)
        (λ path t g. watch_file-IsListed id folder path t g) s h
  react-IsListed id now (launches env path folder) s h =
      start_with-IsListed id (new_video_process show env path) path folder s h

  -- A video that is listed once stays listed, whatever follows, the end of its encoder included.
  pub run-IsListed :
      (id : VideoId) (es : List (SystemTime × Event)) (s : State)
      → contains_key s.videos id ≡ true
      → contains_key (run hash show es s).videos id ≡ true
  unfolding run
  run-IsListed id [] s h = h
  run-IsListed id ((now, e) ∷ es) s h =
      run-IsListed id es (react hash show now e s).1 (react-IsListed id now e s h)
