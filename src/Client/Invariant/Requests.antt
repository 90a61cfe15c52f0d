-- ===== src/Client/Invariant/Requests.antt =====
-- The client's requests and its answers to pings (client/src/client.rs), over well-formed tables.
use pessi_streamer.Base.{
  ◌≡◌, refl, inl, inr, true, Option, none, some, List, map, arith, nat_eq, contains, Option-cases,
  All, All-In, All-map, All-keys, In, retain-All, is_some, is_none, ◌&&◌,
}
use pessi_streamer.Containers.{Containers, get, iter, All-iter, get-insert}
use pessi_streamer.Common.Packet.{
  SocketAddr, addr_eq, VideoId, SystemTime, Packet, VideoListPacket, server, request_video,
  stop_video,
}
use pessi_streamer.Common.Effect.{
  pure, ◌>>◌, log_error, Sound, Sound-continue, Sound-logged, Sound-for_each,
}
use pessi_streamer.Common.Reliable.{Socket, Codec}
use pessi_streamer.Common.Reliable.Outcomes.{send_reliable-Sound}
use pessi_streamer.Client.State.{State, send}
use pessi_streamer.Client.Best.{AreMeasured, select_best_node_lem}
use pessi_streamer.Client.Invariant.{
  IsValid, IsValid-frame, answered-IsValid, learn_names-IsValid, learn_names-known,
}
use pessi_streamer.Client.Handle.{
  best_node, place, learn_names, waiting_videos, answered, request_start_video, request_stop_video,
  ask_for, select_best_server_and_request, give_source, on_answer, handle_ping_answer,
}
use pessi_streamer.Client.Tasks.{}

-- A property that does not look at the socket holds after every request.
module _ ⦃lib : Containers⦄ ⦃codec : Codec Packet⦄ (now : SystemTime) (P : State → Type 0)
    (frame : (s : State) (k : Socket) → P s → P (record s { socket = k }))
    (measured : (s : State) → P s → AreMeasured s) where
  send-Sound : (p : Packet) (addr : SocketAddr) (s : State) → P s → Sound P (send now p addr s)
  unfolding send
  send-Sound p addr s h = ((send_reliable-Sound now p addr s.socket).0, frame s _ h)

  pure-Sound : {A : Type 0} (a : A) (s : State) → P s → Sound P (pure a s)
  pure-Sound a s h = ((λ e. cc), h)

  -- A request whose answer only gets logged.
  told-Sound :
      (p : Packet) (addr : SocketAddr) (s : State) → P s → Sound P ((send now p addr >> pure tt) s)
  told-Sound p addr s h =
      Sound-continue P (send now p addr s) (λ _. pure tt) (send-Sound p addr s h)
        (λ _ t g. pure-Sound tt t g)

  best_node-Sound : (v : VideoId) (s : State) → P s → Sound P (best_node v s)
  best_node-Sound v s h = elim (select_best_node_lem s v (measured s h)) [
    | inl (chosen, _) ↦ rw (chosen, best_node) (pure-Sound none s h)
    | inr (addr, chosen, _) ↦ rw (chosen, best_node) (pure-Sound (some addr) s h)
  ]

  ask_for-Sound :
      (v : VideoId) (o : Option SocketAddr) (s : State) → P s → Sound P (ask_for now v o s)
  unfolding ask_for request_start_video
  ask_for-Sound v none s h = pure-Sound none s h
  ask_for-Sound v (some addr) s h =
      Sound-continue P (log_error (request_start_video now addr v) s) (λ _. pure (some addr))
        (Sound-logged P (request_start_video now addr v s)
          (told-Sound (server (request_video v)) addr s h))
        (λ _ t g. pure-Sound (some addr) t g)

  pub select-Sound :
      (v : VideoId) (s : State) → P s → Sound P (select_best_server_and_request now v s)
  unfolding select_best_server_and_request
  select-Sound v s h =
      Sound-continue P (best_node v s) (ask_for now v) (best_node-Sound v s h) (ask_for-Sound v)

  pub stop_request-Sound :
      (addr : SocketAddr) (v : VideoId) (s : State)
      → P s
      → Sound P (log_error (request_stop_video now addr v) s)
  unfolding request_stop_video
  stop_request-Sound addr v s h =
      Sound-logged P (request_stop_video now addr v s) (told-Sound (server (stop_video v)) addr s h)

module _ ⦃lib : Containers⦄ where
  abbrev ArePlaying : List VideoId → State → Type 0
  ArePlaying videos s = All (λ v. is_some (get s.playing_videos v) ≡ true) videos

  waiting_videos-ArePlaying :
      (videos : List VideoId) (s : State) → ArePlaying (waiting_videos videos s) s
  unfolding waiting_videos
  waiting_videos-ArePlaying videos s =
      All-keys (λ v. is_some (get s.playing_videos v) ≡ true) _
        (retain-All _ (λ e. is_none e.1.source && contains videos e.0) (iter s.playing_videos)
          (All-iter (λ e. is_some (get s.playing_videos e.0) ≡ true) s.playing_videos
            (λ v x known. rw known)))

  place-Sound :
      (videos : List VideoId) (v : VideoId) (o : Option SocketAddr) (s : State)
      → In v videos
      → IsValid s × ArePlaying videos s
      → Sound (λ t. IsValid t × ArePlaying videos t) (place v o s)
  unfolding place
  place-Sound videos v o s i (h, playing) = elim (Option-cases (get s.playing_videos v)) [
    | inl missing ↦ absurd (ground (arith, missing, All-In _ videos v playing i))
    | inr (x, known) ↦
        rw (known, place)
          (
            (λ e. cc),
            (
              IsValid-frame s _ refl refl h,
              All-map videos
                  (λ w there.
                    ground
                      (arith, there, get-insert s.playing_videos v (record x { source = o }) w))
                  playing,
            ),
          )
  ]

module _ ⦃lib : Containers⦄ where
  pub socket-IsValid : (s : State) (k : Socket) → IsValid s → IsValid (record s { socket = k })
  socket-IsValid s k h = IsValid-frame s _ refl refl h

  pub IsValid-measured : (s : State) → IsValid s → AreMeasured s
  IsValid-measured s h = h.measured

module _ ⦃lib : Containers⦄ ⦃codec : Codec Packet⦄ (now : SystemTime) where
  give_source-Sound :
      (videos : List VideoId) (v : VideoId) (s : State)
      → In v videos
      → IsValid s × ArePlaying videos s
      → Sound (λ t. IsValid t × ArePlaying videos t) (give_source now v s)
  unfolding give_source
  give_source-Sound videos v s i h =
      Sound-continue _ (select_best_server_and_request now v s) (place v)
        (select-Sound now (λ t. IsValid t × ArePlaying videos t)
          (λ t k g. (socket-IsValid t k g.0, g.1)) (λ t g. g.0.measured) v s h)
        (λ o t g. place-Sound videos v o t i g)

  on_answer-Sound :
      (addr : SocketAddr) (p : VideoListPacket) (o : Option (SocketAddr × SystemTime)) (s : State)
      → ((v : VideoId)
          → contains (map (λ x. x.0) p.videos) v ≡ true
          → is_some (get s.video_names v) ≡ true)
      → IsValid s
      → Sound IsValid (on_answer now addr p o s)
  unfolding on_answer
  on_answer-Sound addr p none s known h = ((λ e. cc), h)
  on_answer-Sound addr p (some (saved_addr, start_time)) s known h =
      let videos = map (λ x. x.0) p.videos in
      let t : State = answered now p.sequence_number addr start_time videos s in
      let waiting = waiting_videos videos t in
      let (calm, after) =
        Sound-for_each (λ u. IsValid u × ArePlaying waiting u) waiting (give_source now)
          (λ v i u g. give_source-Sound waiting v u i g) t
          (
            answered-IsValid now p.sequence_number addr start_time videos s known h,
            waiting_videos-ArePlaying videos t,
          ) in
      (calm, after.0)

  pub handle_ping_answer-Sound :
      (addr : SocketAddr) (p : VideoListPacket) (s : State)
      → IsValid s
      → Sound IsValid (handle_ping_answer now addr p s)
  unfolding handle_ping_answer
  handle_ping_answer-Sound addr p s h =
      on_answer-Sound addr p (get s.pending_pings p.sequence_number) (learn_names p.videos s)
        (learn_names-known p.videos s) (learn_names-IsValid p.videos s h)
