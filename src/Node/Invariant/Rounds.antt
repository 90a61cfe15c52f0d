-- ===== src/Node/Invariant/Rounds.antt =====
-- The periodic tasks and every run of a node keep the tables valid, and do not panic.
use pessi_streamer.Base.{
  Option, ◌≡◌, ◌≢◌, refl, inl, inr, true, none, some, List, [], ◌∷◌, arith, nat_eq, Option-cases,
  All, All-map, All-keys, All-In, retain-All, is_some,
}
use pessi_streamer.Containers.{Containers, get, iter, All-iter, get-modify}
use pessi_streamer.Common.Packet.{SocketAddr, addr_eq, VideoId, SystemTime, Packet}
use pessi_streamer.Common.Effect.{
  Outcome, ok, err, blocked, panic, log_error, Sound, Sound-logged, Sound-for_each,
}
use pessi_streamer.Common.Reliable.{receive, Codec, acknowledged, timeout}
use pessi_streamer.Common.Reliable.Outcomes.{}
use pessi_streamer.Node.State.{State, connecting, flood_result, unresponsive}
use pessi_streamer.Node.Redirect.{
  handle_stop_video, run_connecting, handle_unresponsive_node, register_new_neighbour, videos_to,
}
use pessi_streamer.Node.Handle.{handle_packet, mark_unresponsive}
use pessi_streamer.Node.Invariant.{IsValid, IsValid-frame, mark_unresponsive-IsValid, pure-Sound}
use pessi_streamer.Node.Invariant.Requests.{
  handle_stop_video-Sound, handle_unresponsive_node-Sound, request_video_to_node-Sound,
}
use pessi_streamer.Node.Invariant.Handlers.{
  handle_packet-Sound, handle_send_flood_packet_result-Sound,
}
use pessi_streamer.Node.Frame.{handle_unresponsive_node-frame}
use pessi_streamer.Common.Reliable.Outcomes.{receive-ne-panic}
use pessi_streamer.Node.Tasks.{
  silent_parents, silent_clients, stalled_videos, is_silent, drop_neighbour, check_neighbours_round,
  stop_client, client_health_check_round, request_again, video_health_check_round, dispatch,
  packet_round, wake, Event, arrives, wakes, finishes, checks_neighbours, checks_clients,
  checks_videos, react, run,
}

module _ ⦃lib : Containers⦄ where
  abbrev pub HasRoutes : List SocketAddr → State → Type 0
  HasRoutes addrs s = All (λ a. is_some (get s.available_routes a) ≡ true) addrs

  HasRoutes-frame :
      (addrs : List SocketAddr) (s t : State)
      → t.available_routes ≡ s.available_routes
      → HasRoutes addrs s
      → HasRoutes addrs t
  HasRoutes-frame addrs s t e h = rw e h

  mark_unresponsive-HasRoutes :
      (addr : SocketAddr) (addrs : List SocketAddr) (s : State)
      → HasRoutes addrs s
      → HasRoutes addrs (mark_unresponsive addr s)
  unfolding mark_unresponsive
  mark_unresponsive-HasRoutes addr addrs s h =
      All-map addrs
        (λ a there. ground (
          arith,
          there,
          get-modify s.available_routes addr (λ r. record r { status = unresponsive }) a,
        ))
        h

  pub HasRoutes-silent : (now : SystemTime) (s : State) → HasRoutes (silent_parents now s) s
  unfolding silent_parents
  HasRoutes-silent now s =
      All-keys (λ a. is_some (get s.available_routes a) ≡ true) _
        (retain-All _ (λ e. is_silent now e.1) (iter s.available_routes)
          (All-iter (λ e. is_some (get s.available_routes e.0) ≡ true) s.available_routes
            (λ a r known. rw known)))

module _ ⦃lib : Containers⦄ ⦃codec : Codec Packet⦄ (now : SystemTime) where
  pub drop_neighbour-Sound :
      (addr : SocketAddr) (addrs : List SocketAddr) (s : State)
      → is_some (get s.available_routes addr) ≡ true
      → IsValid s × HasRoutes addrs s
      → Sound (λ t. IsValid t × HasRoutes addrs t) (drop_neighbour now addr s)
  unfolding drop_neighbour
  drop_neighbour-Sound addr addrs s there (valid, routes) =
      elim (Option-cases (get s.available_routes addr)) [
        | inl missing ↦ absurd (ground (arith, missing, there))
        | inr (r, known) ↦
            let (calm, after) =
              handle_unresponsive_node-Sound now addr (mark_unresponsive addr s)
                (mark_unresponsive-IsValid addr s valid) in
            rw (known, drop_neighbour)
              (
                calm,
                (
                  after,
                  HasRoutes-frame addrs (mark_unresponsive addr s)
                      (handle_unresponsive_node now addr (mark_unresponsive addr s)).1
                      (handle_unresponsive_node-frame (λ t. t.available_routes) (λ _ _. refl)
                        (λ _ _. refl) (λ _ _. refl) now (λ _ _. refl) (λ _ _. refl) _ addr
                        (mark_unresponsive addr s) refl)
                      (mark_unresponsive-HasRoutes addr addrs s routes),
                ),
              )
      ]

  check_neighbours_round-Sound :
      (s : State) → IsValid s → Sound IsValid (check_neighbours_round now s)
  unfolding check_neighbours_round
  check_neighbours_round-Sound s valid =
      let addrs = silent_parents now s in
      let (calm, after) =
        Sound-for_each (λ t. IsValid t × HasRoutes addrs t) addrs (drop_neighbour now)
          (λ addr i t h. drop_neighbour-Sound addr addrs t (All-In _ addrs addr h.1 i) h) s
          (valid, HasRoutes-silent now s) in
      (calm, after.0)

  stop_client-Sound :
      (addr : SocketAddr) (s : State) → IsValid s → Sound IsValid (stop_client now addr s)
  unfolding stop_client
  stop_client-Sound addr s valid =
      Sound-for_each IsValid (videos_to addr s) (λ v. log_error (handle_stop_video now v addr))
        (λ v _ t h.
          Sound-logged IsValid (handle_stop_video now v addr t)
            (handle_stop_video-Sound now v addr t h))
        s valid

  request_again-Sound :
      (v : VideoId) (s : State) → IsValid s → Sound IsValid (request_again now v s)
  unfolding request_again
  request_again-Sound v s valid = elim (Option-cases (get s.video_routes v)) [
    | inl missing ↦ rw (missing, request_again) (pure-Sound now tt s valid)
    | inr (addr, known) ↦ rw (known, request_again) (request_video_to_node-Sound now v addr s valid)
  ]

-- The outcome of the send that a spawned task waits on is no panic.
abbrev pub IsReal : Event → Type 0
IsReal (finishes (flood_result target sent) received) = sent ≢ panic
IsReal (finishes (connecting addr id) received) = Unit
IsReal (arrives datagram) = Unit
IsReal (wakes id) = Unit
IsReal checks_neighbours = Unit
IsReal checks_clients = Unit
IsReal checks_videos = Unit

module _ ⦃lib : Containers⦄ ⦃codec : Codec Packet⦄ where
  dispatch-Sound :
      (now : SystemTime) (r : Outcome (Option (Packet × SocketAddr))) (s : State)
      → r ≢ panic
      → IsValid s
      → Sound IsValid (dispatch now r s)
  unfolding dispatch
  dispatch-Sound now (ok (some (p, addr))) s sane valid =
      Sound-logged IsValid (handle_packet now p addr s) (handle_packet-Sound now p addr s valid)
  dispatch-Sound now (ok none) s sane valid = pure-Sound now tt s valid
  dispatch-Sound now (err e) s sane valid = pure-Sound now tt s valid
  dispatch-Sound now panic s sane valid = absurd (sane refl)
  dispatch-Sound now blocked s sane valid = ((λ e. cc), valid)

  -- In valid tables no datagram, no wake-up, no periodic check and no finished task whose send did not panic makes
  -- the node panic, and each leaves the tables valid: every known route has a measured delay, and no
  -- subscriber is listed twice.
  pub react-Sound :
      (now : SystemTime) (e : Event) (s : State)
      → IsReal e
      → IsValid s
      → Sound IsValid (react now e s)
  unfolding react packet_round wake client_health_check_round video_health_check_round
      run_connecting register_new_neighbour
  react-Sound now (arrives datagram) s real valid =
      dispatch-Sound now (receive {T = Packet} now datagram s.socket).0 _
        (receive-ne-panic Packet now datagram s.socket) (IsValid-frame s _ refl refl valid)
  react-Sound now (wakes id) s real valid = ((λ e. cc), IsValid-frame s _ refl refl valid)
  react-Sound now (finishes (flood_result target sent) received) s real valid =
      handle_send_flood_packet_result-Sound now target sent received s real valid
  react-Sound now (finishes (connecting addr id) (some (acknowledged d))) s real valid =
      ((λ e. cc), IsValid-frame s _ refl refl valid)
  react-Sound now (finishes (connecting addr id) (some timeout)) s real valid =
      pure-Sound now tt s valid
  react-Sound now (finishes (connecting addr id) none) s real valid = pure-Sound now tt s valid
  react-Sound now checks_neighbours s real valid = check_neighbours_round-Sound now s valid
  react-Sound now checks_clients s real valid =
      Sound-for_each IsValid (silent_clients now s) (stop_client now)
        (λ addr _ t h. stop_client-Sound now addr t h) s valid
  react-Sound now checks_videos s real valid =
      Sound-for_each IsValid (stalled_videos now s) (request_again now)
        (λ v _ t h. request_again-Sound now v t h) s valid

  -- From valid tables, such as those of a new node: however datagrams, wake-ups, periodic checks and finished
  -- tasks whose send did not panic follow one another, every known route has a measured delay, and
  -- no subscriber is listed twice.
  pub run-IsValid :
      (es : List (SystemTime × Event)) (s : State)
      → All (λ e. IsReal e.1) es
      → IsValid s
      → IsValid (run es s)
  unfolding run
  run-IsValid [] s real valid = valid
  run-IsValid ((now, e) ∷ es) s real valid =
      run-IsValid es (react now e s).1 real.1 (react-Sound now e s real.0 valid).1
