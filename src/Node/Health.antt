-- ===== src/Node/Health.antt =====
-- The periodic checks of node/src/node.rs: who is no longer served after a round.
use pessi_streamer.Base.{
  ◌*◌, ◌-◌, ◌≡◌, refl, ap, ◌∙◌, inl, inr, Bool, false, ◌&&◌, not, Option, none, some, List, [], ◌∷◌,
  ltb, arith, ==_iff, nat_eq, contains, Bool-cases, Option-cases, unwrap_or, ◌==◌,
}
use pessi_streamer.Containers.{Containers, get}
use pessi_streamer.Containers.Keys.{passes, contains-keys-iter}
use pessi_streamer.Common.Packet.{
  SocketAddr, addr_eq, VideoId, SystemTime, Packet, client_ping_interval,
}
use pessi_streamer.Common.Effect.{
  Calm, Calm-continue, ok, Task, for_each, for_each-ok, log_error, logged-ok,
}
use pessi_streamer.Common.Reliable.{Codec}
use pessi_streamer.Node.State.{State}
use pessi_streamer.Node.Outcomes.{handle_stop_video-Calm, request_video_to_node-Calm}
use pessi_streamer.Node.Redirect.{handle_stop_video, videos_to}
use pessi_streamer.Node.Subscriptions.{is_subscribed}
use pessi_streamer.Node.Subscriptions.Stop.{subscribed-handle_stop_video}
use pessi_streamer.Node.Tasks.{
  silent_clients, stop_client, client_health_check_round, video_health_check_round, request_again,
  stalled_videos,
}

-- The last ping of the client is more than three intervals ago.
abbrev pub late_ping : SystemTime → Option SystemTime → Bool
late_ping now none = false
late_ping now (some t) = ltb (client_ping_interval * 3) (now - t)

module _ ⦃lib : Containers⦄ where
  silent_clients_lem :
      (now : SystemTime) (s : State) (a : SocketAddr)
      → contains (silent_clients now s) a ≡ late_ping now (get s.last_pings a)
  unfolding silent_clients passes
  silent_clients_lem now s a = contains-keys-iter _ s.last_pings a ∙ same (get s.last_pings a)
    where
      same :
          (o : Option SystemTime)
          → passes (λ e. ltb (client_ping_interval * 3) (now - e.1)) a o ≡ late_ping now o
      same none = refl
      same (some t) = refl

  contains-videos_to :
      (addr : SocketAddr) (s : State) (v : VideoId)
      → contains (videos_to addr s) v ≡ is_subscribed s v addr
  unfolding videos_to passes contains
  contains-videos_to addr s v = contains-keys-iter _ s.interested v ∙ same (get s.interested v)
    where
      same :
          (o : Option (List SocketAddr))
          → passes (λ e. contains e.1 addr) v o ≡ contains (unwrap_or o []) addr
      same none = refl
      same (some addrs) = refl

module _ ⦃lib : Containers⦄ ⦃codec : Codec Packet⦄ (now : SystemTime) where
  stop : SocketAddr → VideoId → Task State Unit
  stop addr v = log_error (handle_stop_video now v addr)

  stop_all-ok :
      (addr : SocketAddr) (vs : List VideoId) (s : State) → (for_each vs (stop addr) s).0 ≡ ok tt
  unfolding stop
  stop_all-ok addr vs s =
      for_each-ok vs (stop addr) (λ v t. logged-ok _ (handle_stop_video-Calm now v addr t)) s

  subscribed-stop_all :
      (addr : SocketAddr) (vs : List VideoId) (s : State) (w : VideoId) (b : SocketAddr)
      → is_subscribed (for_each vs (stop addr) s).1 w b
        ≡ (not (contains vs w && addr == b) && is_subscribed s w b)
  unfolding stop contains
  subscribed-stop_all addr [] s w b = refl
  subscribed-stop_all addr (v ∷ vs) s w b = rw (logged-ok _ (handle_stop_video-Calm now v addr s)) (
      ground (
        arith,
        subscribed-stop_all addr vs (handle_stop_video now v addr s).1 w b,
        subscribed-handle_stop_video now v addr s w b,
      ))

  subscribed-stop_client :
      (addr : SocketAddr) (s : State) (w : VideoId) (b : SocketAddr)
      → is_subscribed (stop_client now addr s).1 w b ≡ (not (addr == b) && is_subscribed s w b)
  unfolding stop_client stop
  subscribed-stop_client addr s w b =
      subscribed-stop_all addr (videos_to addr s) s w b ∙ elim (Bool-cases (addr == b)) [
        | inl same ↦ ground (
          arith,
          same,
          contains-videos_to addr s w,
          ap (is_subscribed s w) ((==_iff addr b).0 same),
        )
        | inr other ↦ ground (arith, other)
      ]

  stop_client-ok : (addr : SocketAddr) (s : State) → (stop_client now addr s).0 ≡ ok tt
  unfolding stop_client stop
  stop_client-ok addr s = stop_all-ok addr (videos_to addr s) s

  subscribed-stop_clients :
      (addrs : List SocketAddr) (s : State) (w : VideoId) (b : SocketAddr)
      → is_subscribed (for_each addrs (stop_client now) s).1 w b
        ≡ (not (contains addrs b) && is_subscribed s w b)
  unfolding contains
  subscribed-stop_clients [] s w b = refl
  subscribed-stop_clients (a ∷ addrs) s w b = rw (stop_client-ok a s) (
      ground (
        arith,
        subscribed-stop_clients addrs (stop_client now a s).1 w b,
        subscribed-stop_client a s w b,
      ))

  pub client_health_check_round-ok : (s : State) → (client_health_check_round now s).0 ≡ ok tt
  unfolding client_health_check_round
  client_health_check_round-ok s =
      for_each-ok (silent_clients now s) (stop_client now) (λ a t. stop_client-ok a t) s

  -- The requests of the video health check wait for no lock of their own.
  pub video_health_check_round-Calm : (s : State) → Calm (video_health_check_round now s).0
  unfolding video_health_check_round
  video_health_check_round-Calm s = requests-Calm (stalled_videos now s) s
    where
      again-Calm : (v : VideoId) (t : State) → Calm (request_again now v t).0
      again-Calm v t =
          unfold request_again in
          elim (Option-cases (get t.video_routes v)) [
            | inl missing ↦ rw (missing, request_again) ((λ p. cc), λ p. cc)
            | inr (a, known) ↦ rw (known, request_again) (request_video_to_node-Calm now v a t)
          ]

      requests-Calm : (vs : List VideoId) (t : State) → Calm (for_each vs (request_again now) t).0
      requests-Calm [] t = ((λ p. cc), λ p. cc)
      requests-Calm (v ∷ vs) t =
          Calm-continue (request_again now v t) _ (again-Calm v t)
            (λ _ _. requests-Calm vs (request_again now v t).1)

  -- A round of `run_client_health_check_task` comes to its end, and drops every subscription of the
  -- clients whose last ping is more than three intervals ago, and no other subscription.
  pub client_health_check_round_lem :
      (s : State) (v : VideoId) (addr : SocketAddr)
      → ((client_health_check_round now s).0 ≡ ok tt)
        × (is_subscribed (client_health_check_round now s).1 v addr
            ≡ (not (late_ping now (get s.last_pings addr)) && is_subscribed s v addr))
  unfolding client_health_check_round
  client_health_check_round_lem s v addr = (
    client_health_check_round-ok s,
    subscribed-stop_clients (silent_clients now s) s v addr
        ∙ ap (λ x. not x && is_subscribed s v addr) (silent_clients_lem now s addr),
  )
