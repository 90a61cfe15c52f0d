-- ===== src/Client/Handle.antt =====
-- The operations of client/src/client.rs: what the user asks for, and the handlers of the packets.
use Prim.Native.String.{String}
use mathlib.Core.List.{foldl}
use pessi_streamer.Base.{
  ℕ, ◌+◌, ◌-◌, ◌%◌, Bool, true, false, ◌&&◌, Option, none, some, List, [], ◌∷◌, map, length, nat_eq,
  contains, retain, keys, is_none, if◌then◌else◌,
}
use pessi_streamer.Containers.{Containers, iter, get, insert, remove, modify}
use pessi_streamer.Common.Packet.{
  SocketAddr, addr_eq, VideoId, SystemTime, u64_mod, Packet, VideoPacket, VideoListPacket, server,
  request_video, stop_video,
}
use pessi_streamer.Common.Effect.{
  io_error, ok, err, panic, Task, pure, gets, update, ◌>>=◌, ◌>>◌, log_error, for_each,
}
use pessi_streamer.Common.Reliable.{Codec, Bytes}
use pessi_streamer.Client.State.{
  VideoPlayerType, VideoPlayer, PlayingVideo, State, register_ping_answer, select_best_node, send,
}

-- `VideoPlayer::launch`, of a player that could be started.
abbrev pub new_player : VideoPlayerType → VideoPlayer
new_player player_type = record { player_type = player_type; is_closed = false; written = [] }

-- `VideoPlayer::write`: its result, and the player after it.
unfoldable pub write : Bytes → VideoPlayer → Bool × VideoPlayer
write bytes p = if p.is_closed then (false, p) else (true, record p { written = bytes ∷ p.written })

module _ ⦃lib : Containers⦄ where
  abbrev pub best_node : VideoId → Task State (Option SocketAddr)
  best_node video_id s = elim (select_best_node s video_id) [
    | none ↦ (panic, s)
    | some best ↦ (ok best, s)
  ]

  -- `VideoPlayer::launch` may fail; the environment says whether it does.
  unfoldable pub start_video_process : Bool → Option SocketAddr → VideoId → Task State Unit
  start_video_process false source video_id s = (err io_error, s)
  start_video_process true source video_id s = (
    ok tt,
    record s {
      playing_videos = insert s.playing_videos video_id (record {
        source = source;
        video_player = new_player s.video_player;
        last_sequence_number = 0;
        bytes_written = 0;
      });
    },
  )

  -- `get_mut(&video_id).unwrap().source = source`
  unfoldable pub place : VideoId → Option SocketAddr → Task State Unit
  place video_id source s = elim (get s.playing_videos video_id) [
    | none ↦ (panic, s)
    | some v ↦ (
      ok tt,
      record s { playing_videos = insert s.playing_videos video_id (record v { source = source }) },
    )
  ]

  unfoldable pub learn_names : List (VideoId × String) → State → State
  learn_names videos s = record s {
    video_names = foldl (λ m v. insert m v.0 v.1) s.video_names videos;
  }

  -- The videos that wait for a node, among the given ones.
  unfoldable pub waiting_videos : List VideoId → State → List VideoId
  waiting_videos videos s =
      keys (retain (λ e. is_none e.1.source && contains videos e.0) (iter s.playing_videos))

  unfoldable pub answered : SystemTime → ℕ → SocketAddr → SystemTime → List VideoId → State → State
  unfolding register_ping_answer
  answered now sequence_number addr start_time videos s = record s {
    pending_pings = remove s.pending_pings sequence_number;
    nodes = modify s.nodes addr (register_ping_answer now (now - start_time) videos);
  }

module _ ⦃lib : Containers⦄ ⦃codec : Codec Packet⦄ (now : SystemTime) where
  unfoldable pub request_start_video : SocketAddr → VideoId → Task State Unit
  request_start_video addr video_id = do send now (server (request_video video_id)) addr; pure tt

  unfoldable pub request_stop_video : SocketAddr → VideoId → Task State Unit
  request_stop_video addr video_id = do send now (server (stop_video video_id)) addr; pure tt

  unfoldable pub ask_for : VideoId → Option SocketAddr → Task State (Option SocketAddr)
  unfolding request_start_video
  ask_for video_id none = pure none
  ask_for video_id (some addr) = do log_error (request_start_video addr video_id); pure (some addr)

  unfoldable pub select_best_server_and_request : VideoId → Task State (Option SocketAddr)
  unfolding ask_for
  select_best_server_and_request video_id = do best ← best_node video_id; ask_for video_id best

  -- The task of `ui_start_playing`.
  unfoldable pub ui_start_playing : Bool → VideoId → Task State Unit
  unfolding select_best_server_and_request start_video_process
  ui_start_playing launched video_id = do
    best ← select_best_server_and_request video_id
    log_error (start_video_process launched best video_id)

  unfoldable pub stop_at : VideoId → Option SocketAddr → Task State Unit
  unfolding request_stop_video
  stop_at video_id none = pure tt
  stop_at video_id (some source) = log_error (request_stop_video source video_id)

  unfoldable pub stop_playing : VideoId → Option PlayingVideo → Task State Unit
  unfolding stop_at
  stop_playing video_id none = pure tt
  stop_playing video_id (some v) = do
    update (λ s. record s { playing_videos = remove s.playing_videos video_id })
    stop_at video_id v.source

  -- The task of `ui_stop_playing_id`.
  unfoldable pub ui_stop_playing_id : VideoId → Task State Unit
  unfolding stop_playing
  ui_stop_playing_id video_id s = stop_playing video_id (get s.playing_videos video_id) s

  -- One round of the loop of `handle_ping_answer`, and what the other tasks do to the state meanwhile,
  -- as it awaits the request.
  unfoldable pub give_source_during : (State → State) → VideoId → Task State Unit
  unfolding select_best_server_and_request place
  give_source_during meanwhile video_id = do
    best ← select_best_server_and_request video_id
    update meanwhile
    place video_id best

  -- The round where nothing happens meanwhile.
  unfoldable pub give_source : VideoId → Task State Unit
  unfolding give_source_during
  give_source video_id = give_source_during (λ s. s) video_id

  unfoldable pub on_answer :
      SocketAddr → VideoListPacket → Option (SocketAddr × SystemTime) → Task State Unit
  unfolding answered waiting_videos give_source
  on_answer addr p none = pure tt
  on_answer addr p (some (saved_addr, start_time)) = do
    let videos = map (λ v. v.0) p.videos
    update (answered now p.sequence_number addr start_time videos)
    pending_videos ← gets (waiting_videos videos)
    for_each pending_videos give_source

  unfoldable pub handle_ping_answer : SocketAddr → VideoListPacket → Task State Unit
  unfolding learn_names on_answer
  handle_ping_answer addr p = do
    update (learn_names p.videos)
    saved ← gets (λ s. get s.pending_pings p.sequence_number)
    on_answer addr p saved

  -- The video after a packet, with the player after its write.
  abbrev pub after_write : VideoPacket → VideoPlayer → PlayingVideo → PlayingVideo
  after_write p player v = record v {
    last_sequence_number = p.sequence_number;
    bytes_written = (v.bytes_written + length p.stream_data) % u64_mod;
    video_player = player;
  }

  unfoldable pub on_written :
      SocketAddr → VideoPacket → PlayingVideo → Bool × VideoPlayer → Task State Unit
  unfolding request_stop_video
  on_written source p v (true, player) = update λ s. record s {
    playing_videos = insert s.playing_videos p.stream_id (after_write p player v);
  }
  on_written source p v (false, player) = do
    log_error (request_stop_video source p.stream_id)
    update (λ s. record s { playing_videos = remove s.playing_videos p.stream_id })

  unfoldable pub play : SocketAddr → VideoPacket → Option PlayingVideo → Task State Unit
  unfolding write on_written
  play source p none = pure tt
  play source p (some v) = on_written source p v (write p.stream_data v.video_player)

  unfoldable pub handle_video_packet : SocketAddr → VideoPacket → Task State Unit
  unfolding play
  handle_video_packet source p s = play source p (get s.playing_videos p.stream_id) s
