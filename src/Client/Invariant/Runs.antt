-- ===== src/Client/Invariant/Runs.antt =====
-- The well-formedness of the client's tables (client/src/client.rs) under every event.
use pessi_streamer.Base.{ℕ, ◌≢◌, refl, Bool, true, false, Option, none, some, List, [], ◌∷◌, nat_eq}
use pessi_streamer.Containers.{Containers, get}
use pessi_streamer.Common.Packet.{
  SocketAddr, addr_eq, VideoId, SystemTime, Packet, VideoPacket, node, server, client, video,
  video_list,
}
use pessi_streamer.Common.Effect.{
  Outcome, ok, err, panic, blocked, update, log_error, Sound, Sound-continue, Sound-for_each,
}
use pessi_streamer.Common.Reliable.{Codec, receive}
use pessi_streamer.Common.Reliable.Outcomes.{send_reliable-Sound, receive-ne-panic}
use pessi_streamer.Client.State.{State, PlayingVideo, VideoPlayer, send}
use pessi_streamer.Client.Invariant.{IsValid, IsValid-frame, mark_unresponsive-IsValid}
use pessi_streamer.Client.Handle.{
  start_video_process, request_stop_video, select_best_server_and_request, ui_start_playing,
  stop_at, stop_playing, ui_stop_playing_id, write, on_written, play, handle_video_packet,
}
use pessi_streamer.Client.Tasks.{
  set_source, redirect, drop_node, unresponsive_round, after_ping, ping_node, ping_round, dispatch,
  packet_round, Event, arrives, wakes, pings, checks_nodes, starts, stops, closes, wake,
  close_player, react, run,
}
use pessi_streamer.Client.Invariant.Requests.{
  select-Sound, stop_request-Sound, socket-IsValid, IsValid-measured, handle_ping_answer-Sound,
}

module _ ⦃lib : Containers⦄ ⦃codec : Codec Packet⦄ (now : SystemTime) where
  playing-IsValid :
      (s : State) (m : lib.Map VideoId PlayingVideo)
      → IsValid s
      → IsValid (record s { playing_videos = m })
  playing-IsValid s m h = IsValid-frame s _ refl refl h

  stop-Sound :
      (v : VideoId) (addr : SocketAddr) (s : State)
      → IsValid s
      → Sound IsValid (log_error (request_stop_video now addr v) s)
  stop-Sound v addr s h = stop_request-Sound now IsValid socket-IsValid IsValid-measured addr v s h

  on_written-Sound :
      (addr : SocketAddr) (p : VideoPacket) (x : PlayingVideo) (r : Bool × VideoPlayer) (s : State)
      → IsValid s
      → Sound IsValid (on_written now addr p x r s)
  unfolding on_written
  on_written-Sound addr p x (true, player) s h = ((λ e. cc), playing-IsValid s _ h)
  on_written-Sound addr p x (false, player) s h =
      Sound-continue IsValid (log_error (request_stop_video now addr p.stream_id) s) _
        (stop-Sound p.stream_id addr s h) (λ _ t g. ((λ e. cc), playing-IsValid t _ g))

  play-Sound :
      (addr : SocketAddr) (p : VideoPacket) (o : Option PlayingVideo) (s : State)
      → IsValid s
      → Sound IsValid (play now addr p o s)
  unfolding play
  play-Sound addr p none s h = ((λ e. cc), h)
  play-Sound addr p (some x) s h =
      on_written-Sound addr p x (write p.stream_data x.video_player) s h

  dispatch-Sound :
      (r : Outcome (Option (Packet × SocketAddr))) (s : State)
      → r ≢ panic
      → IsValid s
      → Sound IsValid (dispatch now r s)
  unfolding dispatch handle_video_packet
  dispatch-Sound (ok none) s sane h = ((λ e. cc), h)
  dispatch-Sound (ok (some (video p, addr))) s sane h =
      play-Sound addr p (get s.playing_videos p.stream_id) s h
  dispatch-Sound (ok (some (client (video_list p), addr))) s sane h =
      handle_ping_answer-Sound now addr p s h
  dispatch-Sound (ok (some (node p, addr))) s sane h = ((λ e. cc), h)
  dispatch-Sound (ok (some (server p, addr))) s sane h = ((λ e. cc), h)
  dispatch-Sound (err e) s sane h = ((λ q. cc), h)
  dispatch-Sound panic s sane h = absurd (sane refl)
  dispatch-Sound blocked s sane h = ((λ e. cc), h)

  redirect-Sound : (v : VideoId) (s : State) → IsValid s → Sound IsValid (redirect now v s)
  unfolding redirect set_source
  redirect-Sound v s h =
      Sound-continue IsValid (select_best_server_and_request now v s) (λ o. update (set_source v o))
        (select-Sound now IsValid socket-IsValid IsValid-measured v s h)
        (λ o t g. ((λ e. cc), playing-IsValid t _ g))

  drop_node-Sound :
      (addr : SocketAddr) (s : State) → IsValid s → Sound IsValid (drop_node now addr s)
  unfolding drop_node
  drop_node-Sound addr s h =
      Sound-for_each IsValid _ (redirect now) (λ v _ t g. redirect-Sound v t g) _
        (mark_unresponsive-IsValid addr s h)

  after_ping-Sound :
      (n : ℕ) (addr : SocketAddr) (r : Outcome ℕ) (s : State)
      → r ≢ panic
      → IsValid s
      → Sound IsValid (after_ping now n addr r s)
  unfolding after_ping
  after_ping-Sound n addr (ok a) s sane h = ((λ e. cc), IsValid-frame s _ refl refl h)
  after_ping-Sound n addr (err e) s sane h = ((λ q. cc), h)
  after_ping-Sound n addr panic s sane h = absurd (sane refl)
  after_ping-Sound n addr blocked s sane h = ((λ e. cc), h)

  ping_node-Sound :
      (addr : SocketAddr) (s : State) → IsValid s → Sound IsValid (ping_node now addr s)
  unfolding ping_node send
  ping_node-Sound addr s h =
      after_ping-Sound s.ping_sequence_number addr _ _ (send_reliable-Sound now _ addr s.socket).0
        (IsValid-frame s _ refl refl h)

  launch-Sound :
      (launched : Bool) (o : Option SocketAddr) (v : VideoId) (s : State)
      → IsValid s
      → Sound IsValid (log_error (start_video_process launched o v) s)
  unfolding start_video_process
  launch-Sound false o v s h = ((λ e. cc), h)
  launch-Sound true o v s h = ((λ e. cc), playing-IsValid s _ h)

  stop_playing-Sound :
      (v : VideoId) (o : Option PlayingVideo) (s : State)
      → IsValid s
      → Sound IsValid (stop_playing now v o s)
  unfolding stop_playing stop_at
  stop_playing-Sound v none s h = ((λ e. cc), h)
  stop_playing-Sound v (some x) s h = stop_at-Sound x.source _ (playing-IsValid s _ h)
    where
      stop_at-Sound :
          (o : Option SocketAddr) (t : State) → IsValid t → Sound IsValid (stop_at now v o t)
      stop_at-Sound none t g = ((λ e. cc), g)
      stop_at-Sound (some addr) t g = stop-Sound v addr t g

  -- In valid tables no event that is handled to its end before the next one makes the client panic,
  -- and each leaves the tables valid: every connected node has a round-trip time on record, and
  -- every video that a node offers has a name.
  pub client_react-Sound : (e : Event) (s : State) → IsValid s → Sound IsValid (react now e s)
  unfolding react packet_round ping_round unresponsive_round ui_start_playing ui_stop_playing_id
      wake close_player
  client_react-Sound (arrives datagram) s h =
      dispatch-Sound (receive {T = Packet} now datagram s.socket).0 _
        (receive-ne-panic Packet now datagram s.socket) (IsValid-frame s _ refl refl h)
  client_react-Sound (wakes id) s h = ((λ e. cc), IsValid-frame s _ refl refl h)
  client_react-Sound pings s h =
      Sound-for_each IsValid _ (ping_node now) (λ addr _ t g. ping_node-Sound addr t g) s h
  client_react-Sound checks_nodes s h =
      Sound-for_each IsValid _ (drop_node now) (λ addr _ t g. drop_node-Sound addr t g) s h
  client_react-Sound (starts launched v) s h =
      Sound-continue IsValid (select_best_server_and_request now v s) _
        (select-Sound now IsValid socket-IsValid IsValid-measured v s h)
        (λ o t g. launch-Sound launched o v t g)
  client_react-Sound (stops v) s h = stop_playing-Sound v (get s.playing_videos v) s h
  client_react-Sound (closes v) s h = ((λ e. cc), IsValid-frame s _ refl refl h)

module _ ⦃lib : Containers⦄ ⦃codec : Codec Packet⦄ where
  -- From valid tables, such as those of a new client: however datagrams, wake-ups, rounds and the
  -- user's clicks follow one another, every connected node has a round-trip time on record, and
  -- every video that a node offers has a name.
  pub run-IsValid : (es : List (SystemTime × Event)) (s : State) → IsValid s → IsValid (run es s)
  unfolding run
  run-IsValid [] s h = h
  run-IsValid ((now, e) ∷ es) s h =
      run-IsValid es (react now e s).1 (client_react-Sound now e s h).1
