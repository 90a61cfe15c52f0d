-- ===== src/Server/Tasks.antt =====
-- The tasks of the server (server/src/server.rs), one round of each, and its runs. The encoder is
-- a process of its own: what it sends, and whether it starts, is the environment's.
use Prim.Native.String.{String}
use pessi_streamer.Base.{
  ℕ, ◌+◌, ◌%◌, ◌⊎◌, inl, inr, Bool, true, false, Option, none, some, List, [], ◌∷◌, is_empty,
  if◌then◌else◌, nat_eq,
}
use pessi_streamer.Containers.{Containers, get, insert}
use pessi_streamer.Common.Packet.{
  SocketAddr, VideoId, SystemTime, Packet, VideoPacket, FloodPacket, video, node, flood, u64_mod,
}
use pessi_streamer.Common.Effect.{
  Outcome, ok, err, panic, blocked, Task, logged, pure, for_each, ◌>>=◌, ◌>>◌,
}
use pessi_streamer.Common.Reliable.{Codec, Bytes, receive, send_unreliable_broadcast}
use pessi_streamer.Server.Files.{FilePath, get_video_name_from_path}
use pessi_streamer.Server.Encoder.{
  Failure, not_in_folder, panicked, Child, Environment, new_video_process,
}
use pessi_streamer.Server.State.{
  State, Video, new_video, contains_video, get_video_list, handle_client_packet,
}

-- The packet that carries a datagram of the encoder.
abbrev pub video_packet : VideoId → Video → Bytes → VideoPacket
video_packet id v bytes = record {
  stream_id = id;
  sequence_number = (v.sequence_number + 1) % u64_mod;
  stream_data = bytes;
}

module _ ⦃lib : Containers⦄ ⦃codec : Codec Packet⦄ where
  unfoldable pub dispatch : Outcome (Option (Packet × SocketAddr)) → Task State Unit
  dispatch (ok (some (p, addr))) s = (ok tt, handle_client_packet p addr s)
  dispatch (ok none) s = (ok tt, s)
  dispatch (err e) s = (ok tt, s)
  dispatch panic s = (panic, s)
  dispatch blocked s = (blocked, s)

  -- One round of `run_client_socket`, given what `recv_from` returned.
  unfoldable pub client_socket_round : SystemTime → Option (Bytes × SocketAddr) → Task State Unit
  unfolding dispatch
  client_socket_round now datagram s =
      let (r, k) = receive {T = Packet} now datagram s.clients_socket in
      dispatch r (record s { clients_socket = k })

  unfoldable pub stream_to : VideoId → Bytes → Option Video → Task State Unit
  stream_to id bytes none s = (ok tt, s)
  stream_to id bytes (some v) s =
      let p = video_packet id v bytes in
      let (r, k) = send_unreliable_broadcast (video p) v.interested s.clients_socket in
      if is_empty v.interested then (ok tt, s) else (
        logged r,
        record s {
          clients_socket = k;
          videos = insert s.videos id (record v { sequence_number = p.sequence_number });
        },
      )

  -- One datagram of the encoder, in the loop of `start_streaming_video`.
  unfoldable pub stream_datagram : VideoId → Bytes → Task State Unit
  unfolding stream_to
  stream_datagram id bytes s = stream_to id bytes (get s.videos id) s

  abbrev pub flood_packet : SystemTime → State → FloodPacket
  flood_packet now s = record {
    created_at_server_time = now;
    videos_available = get_video_list s;
    visited_nodes = s.id ∷ [];
    my_parents = [];
  }

  -- One round of `run_periodic_flood_packets`.
  unfoldable pub flood_round : SystemTime → Task State Unit
  flood_round now s =
      let (r, k) =
        send_unreliable_broadcast (node (flood (flood_packet now s))) s.neighbours
          s.clients_socket in
      (r, record s { clients_socket = k })

-- What `select!` yields in the loop of `start_streaming_video`: the encoder's process has ended,
-- or `recv` on its socket fails or returns a datagram.
pub data Selected : Type 0 where
  ended fails : Selected
  received : Bytes → Selected

module _ ⦃lib : Containers⦄ ⦃codec : Codec Packet⦄ where
  -- One round of that loop, and whether it goes on.
  unfoldable pub stream_round : VideoId → Selected → Task State Bool
  unfolding stream_datagram
  stream_round id ended = pure false
  stream_round id fails = pure true
  stream_round id (received bytes) = stream_datagram id bytes >> pure true

  -- The loop, given what `select!` yields.
  unfoldable pub stream_loop : VideoId → List Selected → Task State Unit
  unfolding stream_round
  stream_loop id [] = pure tt
  stream_loop id (e ∷ es) = do
    goes_on ← stream_round id e
    let rest = stream_loop id es
    if goes_on then rest else pure tt

module _ ⦃lib : Containers⦄ (hash : String → ℕ) where
  -- `get_video_id`; the hash is that of the standard library.
  abbrev pub get_video_id : String → VideoId
  get_video_id name = hash name

  unfoldable pub register : Option (Option String) → State → (Failure ⊎ VideoId) × State
  register none s = (inl panicked, s)
  register (some none) s = (inl not_in_folder, s)
  register (some (some name)) s = (
    inr (get_video_id name),
    record s { videos = insert s.videos (get_video_id name) (new_video name) },
  )

  unfoldable pub start_with :
      Failure ⊎ (SocketAddr × Child) → FilePath → List String → State → (Failure ⊎ VideoId) × State
  unfolding register
  start_with (inl e) path folder s = (inl e, s)
  start_with (inr launched) path folder s = register (get_video_name_from_path path folder) s

  -- `start_streaming_video` up to its loop: why it ends, or the id of the video that it streams.
  unfoldable pub start_streaming_video :
      (SocketAddr → String)
      → Environment
      → FilePath
      → List String
      → State
      → (Failure ⊎ VideoId) × State
  unfolding start_with
  start_streaming_video show env path folder s =
      start_with (new_video_process show env path) path folder s

-- An entry that `WalkDir` yields.
pub record DirEntry : Type 0 where
  pub is_file : Bool
  pub path : FilePath

-- `none` is an entry that cannot be read.
unfoldable pub get_files : List (Option DirEntry) → List FilePath
get_files [] = []
get_files (none ∷ es) = get_files es
get_files (some e ∷ es) = let rest = get_files es in if e.is_file then e.path ∷ rest else rest

module _ ⦃lib : Containers⦄ where
  -- One file in a round of `watch_video_folder`: a task is started if the file is not listed.
  unfoldable pub watch_file : List String → FilePath → Task State Unit
  watch_file folder path s = elim (contains_video s path folder) [
    | none ↦ (panic, s)
    | some true ↦ (ok tt, s)
    | some false ↦ (ok tt, record s { spawned = path ∷ s.spawned })
  ]

  -- One round of `watch_video_folder`, for what the folder holds.
  unfoldable pub watch_round : List (Option DirEntry) → List String → Task State Unit
  unfolding get_files watch_file
  watch_round entries folder = for_each (get_files entries) (watch_file folder)
