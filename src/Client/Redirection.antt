-- ===== src/Client/Redirection.antt =====
-- How the client moves videos to other nodes (client/src/client.rs): the selection with its request,
-- and the loop of `handle_unresponsive_pings_nodes_task` over the videos of one node.
use mathlib.Core.Option
use pessi_streamer.Base.{
  ◌≡◌, refl, ap, sym, ◌∙◌, inl, inr, Bool, false, ◌&&◌, not, Option, none, some, List, [], ◌∷◌,
  arith, ==_iff, nat_eq, contains, Bool-cases, ◌==◌,
}
use pessi_streamer.Containers.{Containers, Map, get, get-modify, modify}
use pessi_streamer.Containers.Keys.{passes, contains-keys-iter}
use pessi_streamer.Common.Packet.{
  SocketAddr, addr_eq, VideoId, SystemTime, Packet, server, request_video,
}
use pessi_streamer.Common.Effect.{ok, pure, for_each, logged-ok, Calm, Calm-continue}
use pessi_streamer.Common.Reliable.{Codec}
use pessi_streamer.Common.Reliable.Outcomes.{send_reliable-Sound}
use pessi_streamer.Client.State.{
  State, Node, PlayingVideo, is_connected, comes_from, get_videos_playing_from_node, send,
}
use pessi_streamer.Client.Best.{AreMeasured, IsBestNode, select_best_node_lem}
use pessi_streamer.Client.Handle.{
  best_node, request_start_video, ask_for, select_best_server_and_request,
}
use pessi_streamer.Client.Frame.{select_keeps}
use pessi_streamer.Client.Tasks.{set_source, redirect}

abbrev pub plays : SocketAddr → Option PlayingVideo → Bool
plays a none = false
plays a (some x) = comes_from a x.source

module _ ⦃lib : Containers⦄ where
  -- The client plays the video from the node.
  unfoldable pub is_played_from : State → SocketAddr → VideoId → Bool
  is_played_from s a v = plays a (get s.playing_videos v)

  -- The address of no connected node.
  abbrev pub IsOff : State → SocketAddr → Type 0
  IsOff s a = (n : Node) → get s.nodes a ≡ some n → is_connected n.status ≡ false

  -- No connected node is chosen.
  abbrev Avoids : State → Option SocketAddr → Type 0
  Avoids s o = (a : SocketAddr) → IsOff s a → comes_from a o ≡ false

  Avoids-of_best : (s : State) (v : VideoId) (b : SocketAddr) → IsBestNode s v b → Avoids s (some b)
  Avoids-of_best s v b best a off = elim (Bool-cases (b == a)) [
    | inl same ↦ absurd (
        ground (
          arith,
          best.offered,
          off best.value (ap (get s.nodes) (sym ((==_iff b a).0 same)) ∙ best.known),
        ))
    | inr other ↦ other
  ]

  plays-modify :
      (m : Map VideoId PlayingVideo) (v : VideoId) (o : Option SocketAddr) (a : SocketAddr)
      (w : VideoId)
      → comes_from a o ≡ false
      → plays a (get (modify m v (λ x. record x { source = o })) w)
        ≡ (not (v == w) && plays a (get m w))
  plays-modify m v o a w away =
      ap (plays a) (get-modify m v (λ x. record x { source = o }) w) ∙ elim (Bool-cases (v == w)) [
        | inl same ↦ rw same (moved (get m w))
        | inr other ↦ rw other refl
      ]
    where
      moved :
          (x : Option PlayingVideo)
          → plays a (Option.map {A = PlayingVideo} (λ y. record y { source = o }) x) ≡ false
      moved none = refl
      moved (some y) = away

  pub contains-played :
      (s : State) (a : SocketAddr) (v : VideoId)
      → contains (get_videos_playing_from_node s a) v ≡ is_played_from s a v
  unfolding get_videos_playing_from_node is_played_from passes contains
  contains-played s a v = contains-keys-iter _ s.playing_videos v ∙ same (get s.playing_videos v)
    where
      same : (o : Option PlayingVideo) → passes (λ e. comes_from a e.1.source) v o ≡ plays a o
      same none = refl
      same (some x) = refl

module _ ⦃lib : Containers⦄ ⦃codec : Codec Packet⦄ (now : SystemTime) where
  request_start_video-Calm :
      (addr : SocketAddr) (v : VideoId) (s : State) → Calm (request_start_video now addr v s).0
  unfolding request_start_video send
  request_start_video-Calm addr v s =
      let (sane, free, _, _) = send_reliable-Sound now (server (request_video v)) addr s.socket in
      Calm-continue (send now (server (request_video v)) addr s) (λ _. pure tt) (sane, free)
        (λ _ _. ((λ p. cc), λ p. cc))

  -- A selection ends with a node that is connected, or with none; nothing but the socket changes.
  select-ok :
      (v : VideoId) (s : State)
      → AreMeasured s
      → (o : Option SocketAddr) × ((select_best_server_and_request now v s).0 ≡ ok o) × Avoids s o
  unfolding select_best_server_and_request ask_for
  select-ok v s measured = elim (select_best_node_lem s v measured) [
    | inl (chosen, _) ↦ (none, rw (chosen, best_node) refl, λ a off. refl)
    | inr (b, chosen, best) ↦ (
      some b,
      rw (chosen, best_node) (rw (logged-ok _ (request_start_video-Calm b v s)) refl),
      Avoids-of_best s v b best,
    )
  ]

  redirect_lem :
      (v : VideoId) (s : State)
      → AreMeasured s
      → let t = (redirect now v s).1 in
        ((redirect now v s).0 ≡ ok tt)
        × (t.nodes ≡ s.nodes)
        × ((a : SocketAddr) (w : VideoId)
            → IsOff s a
            → is_played_from t a w ≡ (not (v == w) && is_played_from s a w))
  unfolding redirect set_source is_played_from
  redirect_lem v s measured =
      let (o, chosen, avoids) = select-ok v s measured in
      let same : State → Type 0 =
        λ t. (t.nodes ≡ s.nodes) × (t.playing_videos ≡ s.playing_videos) in
      let (nodes, playing) = select_keeps same (λ _ _ h. h) now v s (refl, refl) in
      rw chosen (
        refl,
        nodes,
        λ a w off.
            plays-modify (select_best_server_and_request now v s).1.playing_videos v o a w
              (avoids a off)
            ∙ ap (λ m. not (v == w) && plays a (get m w)) playing,
      )

  pub redirects_lem :
      (vs : List VideoId) (s : State)
      → AreMeasured s
      → let t = (for_each vs (redirect now) s).1 in
        ((for_each vs (redirect now) s).0 ≡ ok tt)
        × (t.nodes ≡ s.nodes)
        × ((a : SocketAddr) (w : VideoId)
            → IsOff s a
            → is_played_from t a w ≡ (not (contains vs w) && is_played_from s a w))
  unfolding contains
  redirects_lem [] s measured = (refl, refl, λ a w off. refl)
  redirects_lem (v ∷ vs) s measured =
      let (done, nodes, played) = redirect_lem v s measured in
      let u = (redirect now v s).1 in
      let (all_done, all_nodes, all_played) =
        redirects_lem vs u (λ a n found. measured a n (rw nodes at found)) in
      rw done (
        all_done,
        all_nodes ∙ nodes,
        λ a w off.
            ground (arith, all_played a w (λ n found. off n (rw nodes at found)), played a w off),
      )
