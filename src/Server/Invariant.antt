-- ===== src/Server/Invariant.antt =====
-- What every run of the server keeps (server/src/server.rs).
use Prim.Native.String.{String}
use pessi_streamer.Base.{
  ℕ, ◌<◌, ◌≡◌, ◌≢◌, ◌⊎◌, refl, inl, inr, true, Option, none, some, List, [], ◌∷◌, arith, nat_eq,
  is_empty, distinct, Bool-cases, Option-cases, In, false,
}
use pessi_streamer.Containers.{Containers, get, get-new, insert-Found, modify-Found}
use pessi_streamer.Common.Packet.{
  SocketAddr, addr_eq, VideoId, SystemTime, Packet, video, node, server, client, client_ping,
  new_neighbour, flood, request_video, stop_video, u64_mod,
}
use pessi_streamer.Common.Subscribers.{add_subscriber-distinct, drop_subscriber-distinct}
use pessi_streamer.Common.Effect.{
  Outcome, ok, err, panic, blocked, Task, logged, Sound, pure, ◌>>◌, Sound-continue, for_each_keeps,
}
use pessi_streamer.Common.Reliable.{Socket, Codec, Bytes, receive}
use pessi_streamer.Common.Reliable.Outcomes.{receive-ne-panic, send_unreliable_broadcast-ne-panic}
use pessi_streamer.Server.Files.{FilePath, get_video_name_from_path, named}
use pessi_streamer.Server.Encoder.{
  Failure, file_missing, not_bound, no_codec, not_spawned, not_in_folder, panicked, Child,
  Environment, list_encoders, launch_video_process, launch_with, detect_and_launch,
  new_video_process,
}
use pessi_streamer.Server.State.{
  State, Video, contains_video, new_state, new_video, add_interested, drop_interested,
  handle_client_packet,
}
use pessi_streamer.Server.Watch.{watch_files-panics}
use pessi_streamer.Server.Tasks.{
  video_packet, dispatch, client_socket_round, stream_to, stream_datagram, flood_packet,
  flood_round, register, start_with, start_streaming_video, Selected, ended, fails, received,
  stream_round, DirEntry, get_files, watch_file, watch_round,
}

-- What happens to a server: `recv_from` returns, something happens to an encoder, a flood or a look
-- at the folder is due, a streaming task starts its encoder. An error or a panic there, and the end
-- of the encoder, ends only that task, whose handle nobody keeps.
pub data Event : Type 0 where
  arrives : Option (Bytes × SocketAddr) → Event
  encodes : VideoId → Selected → Event
  floods : Event
  watches : List (Option DirEntry) → List String → Event
  launches : Environment → FilePath → List String → Event

-- What may make an event panic: a file whose name is not Unicode, or, at a launch, encoders that
-- cannot be listed, an `ffmpeg` that does not tell its version, or a path that is not Unicode.
abbrev pub HasCause : Event → Type 0
HasCause (arrives datagram) = ⊥
HasCause (encodes id selected) = ⊥
HasCause floods = ⊥
HasCause (watches entries folder) =
    (path : FilePath) × In path (get_files entries) × (path.name_is_unicode ≡ false)
HasCause (launches env path folder) =
    (list_encoders env.encoders ≡ none)
    ⊎ (env.has_version ≡ false)
    ⊎ (path.is_unicode ≡ false)
    ⊎ (path.name_is_unicode ≡ false)

-- What a streaming task comes to by its launch; its errors are dropped with its handle.
abbrev pub launch_outcome : Failure ⊎ VideoId → Outcome Unit
launch_outcome (inl panicked) = panic
launch_outcome (inl file_missing) = ok tt
launch_outcome (inl not_bound) = ok tt
launch_outcome (inl no_codec) = ok tt
launch_outcome (inl not_spawned) = ok tt
launch_outcome (inl not_in_folder) = ok tt
launch_outcome (inr id) = ok tt

module _ ⦃lib : Containers⦄ ⦃codec : Codec Packet⦄ (hash : String → ℕ)
    (show : SocketAddr → String) where
  unfoldable pub react : SystemTime → Event → Task State Unit
  react now (arrives datagram) = client_socket_round now datagram
  react now (encodes id selected) = stream_round id selected >> pure tt
  react now floods = flood_round now
  react now (watches entries folder) = watch_round entries folder
  react now (launches env path folder) =
      λ s. let (r, t) = start_streaming_video hash show env path folder s in (launch_outcome r, t)

  unfoldable pub run : List (SystemTime × Event) → State → State
  unfolding react
  run [] s = s
  run ((now, e) ∷ es) s = run es (react now e s).1

-- No subscriber is listed twice, the sequence number is a `u64`, and the id is that of the name.
abbrev pub IsVideo : (String → ℕ) → VideoId → Video → Type 0
IsVideo hash id v =
    (distinct v.interested ≡ true) × (v.sequence_number < u64_mod) × (hash v.name ≡ id)

module _ ⦃lib : Containers⦄ (hash : String → ℕ) where
  pub record IsValid (s : State) : Type 0 where
    pub listed : (id : VideoId) (v : Video) → get s.videos id ≡ some v → IsVideo hash id v

  pub new_state-IsValid :
      (k : Socket) (id : ℕ) (neighbours : List SocketAddr) → IsValid (new_state k id neighbours)
  unfolding new_state
  new_state-IsValid k id neighbours = record { listed = λ w v found. cc (get-new {V = Video} w) }

  IsValid-frame : (s t : State) → t.videos ≡ s.videos → IsValid s → IsValid t
  IsValid-frame s t e h = record { listed = λ id v found. h.listed id v (rw e at found) }

  handle_client_packet-IsValid :
      (p : Packet) (addr : SocketAddr) (s : State)
      → IsValid s
      → IsValid (handle_client_packet p addr s)
  unfolding handle_client_packet
  handle_client_packet-IsValid (server (request_video v)) addr s h = record {
    listed =
        modify-Found (IsVideo hash) s.videos v (add_interested addr)
          (λ x found.
            let (d, n, i) = h.listed v x found in
            (add_subscriber-distinct addr x.interested d, n, i))
          h.listed;
  }
  handle_client_packet-IsValid (server (stop_video v)) addr s h = record {
    listed =
        modify-Found (IsVideo hash) s.videos v (drop_interested addr)
          (λ x found.
            let (d, n, i) = h.listed v x found in
            (drop_subscriber-distinct addr x.interested d, n, i))
          h.listed;
  }
  handle_client_packet-IsValid (node (flood p)) addr s h = h
  handle_client_packet-IsValid (node new_neighbour) addr s h = IsValid-frame s _ refl h
  handle_client_packet-IsValid (node (client_ping n requested)) addr s h = h
  handle_client_packet-IsValid (video p) addr s h = h
  handle_client_packet-IsValid (client p) addr s h = h

  register-IsValid :
      (o : Option (Option String)) (s : State) → IsValid s → IsValid (register hash o s).1
  unfolding register distinct
  register-IsValid none s h = h
  register-IsValid (some none) s h = h
  register-IsValid (some (some name)) s h = record {
    listed =
        insert-Found (IsVideo hash) s.videos (hash name) (new_video name) (refl, omega arith, refl)
          h.listed;
  }

module _ ⦃lib : Containers⦄ ⦃codec : Codec Packet⦄ (hash : String → ℕ)
    (show : SocketAddr → String) where
  dispatch-Sound :
      (r : Outcome (Option (Packet × SocketAddr))) (s : State)
      → r ≢ panic
      → IsValid hash s
      → Sound (IsValid hash) (dispatch r s)
  unfolding dispatch
  dispatch-Sound (ok (some (p, addr))) s sane h =
      ((λ e. cc), handle_client_packet-IsValid hash p addr s h)
  dispatch-Sound (ok none) s sane h = ((λ e. cc), h)
  dispatch-Sound (err e) s sane h = ((λ e. cc), h)
  dispatch-Sound panic s sane h = absurd (sane refl)
  dispatch-Sound blocked s sane h = ((λ e. cc), h)

  logged-ne-panic : (r : Outcome Unit) → r ≢ panic → logged r ≢ panic
  logged-ne-panic (ok a) h = h
  logged-ne-panic (err e) h = λ p. cc
  logged-ne-panic panic h = h
  logged-ne-panic blocked h = h

  stream_to-Sound :
      (id : VideoId) (bytes : Bytes) (o : Option Video) (s : State)
      → get s.videos id ≡ o
      → IsValid hash s
      → Sound (IsValid hash) (stream_to id bytes o s)
  unfolding stream_to
  stream_to-Sound id bytes none s found h = ((λ e. cc), h)
  stream_to-Sound id bytes (some v) s found h = elim (Bool-cases (is_empty v.interested)) [
    | inl alone ↦ rw alone ((λ e. cc), h)
    | inr some_one ↦ rw some_one (
      logged-ne-panic _ (
          send_unreliable_broadcast-ne-panic (video (video_packet id v bytes)) v.interested
            s.clients_socket),
      record {
        listed =
            insert-Found (IsVideo hash) s.videos id _
              ((h.listed id v found).0, omega arith, (h.listed id v found).2) h.listed;
      },
    )
  ]

  stream_round-Sound :
      (id : VideoId) (e : Selected) (s : State)
      → IsValid hash s
      → Sound (IsValid hash) (stream_round id e s)
  unfolding stream_round stream_datagram
  stream_round-Sound id ended s h = ((λ e. cc), h)
  stream_round-Sound id fails s h = ((λ e. cc), h)
  stream_round-Sound id (received bytes) s h =
      Sound-continue (IsValid hash) (stream_to id bytes (get s.videos id) s) (λ _. pure true)
        (stream_to-Sound id bytes (get s.videos id) s refl h) (λ _ t g. ((λ e. cc), g))

  start_with-IsValid :
      (r : Failure ⊎ (SocketAddr × Child)) (path : FilePath) (folder : List String) (s : State)
      → IsValid hash s
      → IsValid hash (start_with hash r path folder s).1
  unfolding start_with
  start_with-IsValid (inl e) path folder s h = h
  start_with-IsValid (inr launched) path folder s h =
      register-IsValid hash (get_video_name_from_path path folder) s h

  watch_file-IsValid :
      (folder : List String) (path : FilePath) (s : State)
      → IsValid hash s
      → IsValid hash (watch_file folder path s).1
  unfolding watch_file
  watch_file-IsValid folder path s h = elim (Option-cases (contains_video s path folder)) [
    | inl panics ↦ rw (panics, watch_file) h
    | inr (known, found) ↦ elim (Bool-cases known) [
      | inl listed ↦ rw (found, listed, watch_file) h
      | inr new ↦ rw (found, new, watch_file) (IsValid-frame hash s _ refl h)
    ]
  ]

  launch-panics :
      (env : Environment) (path : FilePath) (folder : List String) (s : State)
      → (launch_outcome (start_streaming_video hash show env path folder s).0 ≢ panic)
        ⊎ HasCause (launches env path folder)
  unfolding start_streaming_video new_video_process detect_and_launch launch_with
      launch_video_process start_with register get_video_name_from_path named
  launch-panics env path folder s = elim (Option-cases (list_encoders env.encoders)) [
    | inl unlisted ↦ inr (inl unlisted)
    | inr (encoders, listed) ↦ elim (Bool-cases env.has_version) [
      | inr unknown ↦ inr (inr (inl unknown))
      | inl known ↦ elim (Bool-cases path.is_unicode) [
        | inr strange ↦ inr (inr (inr (inl strange)))
        | inl fine ↦ elim (Bool-cases path.name_is_unicode) [
          | inr strange ↦ inr (inr (inr (inr strange)))
          | inl named' ↦ inl (ground (arith, listed, known, fine, named'))
        ]
      ]
    ]
  ]

  -- From a valid state every event leads to a valid state: no subscriber of a video is listed twice,
  -- the sequence numbers are `u64`s, and the id of a video is the hash of its name. And no event makes
  -- the server panic but a look at a folder with a file whose name is not Unicode, and a launch where
  -- the encoders cannot be listed, `ffmpeg` does not tell its version, or the path or the name of the
  -- file is not Unicode.
  pub server_react-Sound :
      (now : SystemTime) (e : Event) (s : State)
      → IsValid hash s
      → IsValid hash (react hash show now e s).1
        × (((react hash show now e s).0 ≢ panic) ⊎ HasCause e)
  unfolding react client_socket_round stream_datagram flood_round watch_round start_streaming_video
  server_react-Sound now (arrives datagram) s h =
      let (sane, valid) =
        dispatch-Sound (receive {T = Packet} now datagram s.clients_socket).0 _
          (receive-ne-panic Packet now datagram s.clients_socket) (IsValid-frame hash s _ refl h) in
      (valid, inl sane)
  server_react-Sound now (encodes id selected) s h =
      let (sane, valid) =
        Sound-continue (IsValid hash) (stream_round id selected s) (λ _. pure tt)
          (stream_round-Sound id selected s h) (λ b t g. ((λ e. cc), g)) in
      (valid, inl sane)
  server_react-Sound now floods s h = (
    IsValid-frame hash s _ refl h,
    inl (
        send_unreliable_broadcast-ne-panic (node (flood (flood_packet now s))) s.neighbours
          s.clients_socket),
  )
  server_react-Sound now (watches entries folder) s h = (
    for_each_keeps (IsValid hash) (get_files entries) (watch_file folder)
        (λ path t g. watch_file-IsValid folder path t g) s h,
    elim (watch_files-panics folder (get_files entries) s) [
      | inl done ↦ inl (λ e. cc (done, e))
      | inr cause ↦ inr cause
    ],
  )
  server_react-Sound now (launches env path folder) s h = (
    start_with-IsValid (new_video_process show env path) path folder s h,
    launch-panics env path folder s,
  )

  pub run-IsValid :
      (es : List (SystemTime × Event)) (s : State)
      → IsValid hash s
      → IsValid hash (run hash show es s)
  unfolding run
  run-IsValid [] s h = h
  run-IsValid ((now, e) ∷ es) s h =
      run-IsValid es (react hash show now e s).1 (server_react-Sound now e s h).0
