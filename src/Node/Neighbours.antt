-- ===== src/Node/Neighbours.antt =====
-- A round of `run_check_neighbours_task` of node/src/node.rs: no active parent stays silent.
use pessi_streamer.Base.{
  ◌≡◌, ◌⊎◌, refl, ap, sym, ◌∙◌, inl, inr, true, false, Option, none, some, List, [], ◌∷◌, ◌++◌,
  arith, nat_eq, contains, Bool-cases, Option-cases, ◌==◌, is_empty, is_some,
}
use pessi_streamer.Containers.{Containers, get, get-modify}
use pessi_streamer.Common.Packet.{SocketAddr, addr_eq, VideoId, SystemTime, Packet}
use pessi_streamer.Common.Effect.{
  ok, for_each, for_each-ok, for_each_keeps, log_error, logged-ok, bind-ok,
}
use pessi_streamer.Common.Reliable.{Codec}
use pessi_streamer.Node.State.{State, RouteInfo, is_active, unresponsive}
use pessi_streamer.Node.Best.{AreMeasured, get_best_node_to_redirect_lem}
use pessi_streamer.Node.Outcomes.{
  handle_stop_video-Calm, request_video_to_node-Calm, connect_to_parents-ok,
}
use pessi_streamer.Node.Frame.{
  handle_stop_video-frame, handle_unresponsive_node-frame, redirect_to-frame,
}
use pessi_streamer.Node.Invariant.{IsValid, mark_unresponsive-IsValid}
use pessi_streamer.Node.Invariant.Rounds.{HasRoutes, drop_neighbour-Sound, HasRoutes-silent}
use pessi_streamer.Containers.Keys.{passes, contains-keys-iter}
use pessi_streamer.Node.Redirect.{
  handle_stop_video, best_node, redirect_to, redirect_all, videos_from, videos_to,
  handle_unresponsive_node, route_parents,
}
use pessi_streamer.Node.Handle.{mark_unresponsive}
use pessi_streamer.Node.Tasks.{is_silent, silent_parents, drop_neighbour, check_neighbours_round}

module _ ⦃lib : Containers⦄ ⦃codec : Codec Packet⦄ (now : SystemTime) where
  redirect_to-ok :
      (v : VideoId) (best : Option SocketAddr) (s : State)
      → (left : List VideoId) × ((redirect_to now v best s).0 ≡ ok left)
  unfolding redirect_to
  redirect_to-ok v none s = (v ∷ [], refl)
  redirect_to-ok v (some addr) s = ([], rw (logged-ok _ (request_video_to_node-Calm now v addr s)))

  redirect_all-ok :
      (vs : List VideoId) (s : State)
      → AreMeasured s
      → (left : List VideoId) × ((redirect_all now vs s).0 ≡ ok left)
  unfolding redirect_all
  redirect_all-ok [] s h = ([], refl)
  redirect_all-ok (v ∷ vs) s h =
      let (best, chosen) = best_node-ok in
      let (left, moved) = redirect_to-ok v best s in
      let t = (redirect_to now v best s).1 in
      let (rest, redirected) =
        redirect_all-ok vs t (λ a r found. h a r (rw (redirect_to-routes best) at found)) in
      (
        left ++ rest,
        ap (λ m. m.0)
            (bind-ok (best_node v) _ s chosen
              ∙ bind-ok (redirect_to now v best) _ s (ap (λ o. (o, t)) moved)
              ∙ bind-ok (redirect_all now vs) _ t
                  (ap (λ o. (o, (redirect_all now vs t).1)) redirected)),
      )
    where
      best_node-ok : (best : Option SocketAddr) × (best_node v s ≡ (ok best, s))
      best_node-ok = elim (get_best_node_to_redirect_lem s v h) [
        | inl (chosen, _) ↦ (none, rw (chosen, best_node))
        | inr (to, chosen, _) ↦ (some to, rw (chosen, best_node))
      ]

      redirect_to-routes :
          (best : Option SocketAddr)
          → (redirect_to now v best s).1.available_routes ≡ s.available_routes
      redirect_to-routes best =
          redirect_to-frame (λ t. t.available_routes) (λ _ _. refl) (λ _ _. refl) (λ _ _. refl) now
            _ v best s refl

  handle_unresponsive_node-ok :
      (addr : SocketAddr) (s : State)
      → AreMeasured s
      → (handle_unresponsive_node now addr s).0 ≡ ok tt
  unfolding handle_unresponsive_node
  handle_unresponsive_node-ok addr s h =
      let drop = λ (v : VideoId). log_error (handle_stop_video now v addr) in
      let t = (for_each (videos_to addr s) drop s).1 in
      let stopped : for_each (videos_to addr s) drop s ≡ (ok tt, t) =
        ap (λ r. (r, t))
          (for_each-ok (videos_to addr s) drop
            (λ v x. logged-ok _ (handle_stop_video-Calm now v addr x)) s) in
      let routes : t.available_routes ≡ s.available_routes =
        for_each_keeps (λ x. x.available_routes ≡ s.available_routes) (videos_to addr s) drop
          (λ v x g.
            handle_stop_video-frame (λ y. y.available_routes) (λ _ _. refl) (λ _ _. refl)
              (λ _ _. refl) now (λ _ _. refl) (λ _ _. refl) _ v addr x g)
          s refl in
      let (left, redirected) =
        redirect_all-ok (videos_from addr s) t (λ a r found. h a r (rw routes at found)) in
      let u = (redirect_all now (videos_from addr s) t).1 in
      let parents = route_parents (get u.available_routes addr) in
      ap (λ m. m.0)
        (bind-ok (for_each (videos_to addr s) drop) _ s stopped
          ∙ bind-ok (redirect_all now (videos_from addr s)) _ t (ap (λ o. (o, u)) redirected))
      ∙ elim (Bool-cases (is_empty left)) [
        | inl none_left ↦ rw none_left
        | inr some_left ↦ rw (some_left, connect_to_parents-ok now parents u)
      ]

  -- A lost neighbour is marked, and no other route changes.
  drop_neighbour_lem :
      (addr : SocketAddr) (s : State)
      → IsValid s
      → is_some (get s.available_routes addr) ≡ true
      → ((drop_neighbour now addr s).0 ≡ ok tt)
        × ((drop_neighbour now addr s).1.available_routes
            ≡ (mark_unresponsive addr s).available_routes)
  unfolding drop_neighbour
  drop_neighbour_lem addr s valid there = elim (Option-cases (get s.available_routes addr)) [
    | inl missing ↦ absurd (ground (arith, missing, there))
    | inr (r, known) ↦
        rw (known, drop_neighbour)
          (
            handle_unresponsive_node-ok addr (mark_unresponsive addr s)
                (mark_unresponsive-IsValid addr s valid).measured,
            handle_unresponsive_node-frame (λ t. t.available_routes) (λ _ _. refl) (λ _ _. refl)
                (λ _ _. refl) now (λ _ _. refl) (λ _ _. refl) _ addr (mark_unresponsive addr s)
                refl,
          )
  ]

  -- After the rounds for some neighbours, a route to one of them is not active, and any other route
  -- is what it was.
  drop_neighbours_lem :
      (addrs : List SocketAddr) (s : State)
      → IsValid s
      → HasRoutes addrs s
      → let t = (for_each addrs (drop_neighbour now) s).1 in
        ((for_each addrs (drop_neighbour now) s).0 ≡ ok tt)
        × ((b : SocketAddr) (r : RouteInfo)
            → get t.available_routes b ≡ some r
            → (is_active r.status ≡ false)
              ⊎ ((contains addrs b ≡ false) × (get s.available_routes b ≡ some r)))
  unfolding contains mark_unresponsive
  drop_neighbours_lem [] s valid there = (refl, λ b r found. inr (refl, found))
  drop_neighbours_lem (a ∷ addrs) s valid (here, there) =
      let (dropped, routes) = drop_neighbour_lem a s valid here in
      let (_, (valid', there')) = drop_neighbour-Sound now a addrs s here (valid, there) in
      let (ended, rest) = drop_neighbours_lem addrs (drop_neighbour now a s).1 valid' there' in
      rw dropped (
        ended,
        λ b r found. elim (rest b r found) [
          | inl lost ↦ inl lost
          | inr (other, before) ↦ one b r other (rw routes at before)
        ],
      )
    where
      one :
          (b : SocketAddr) (r : RouteInfo)
          → contains addrs b ≡ false
          → get (mark_unresponsive a s).available_routes b ≡ some r
          → (is_active r.status ≡ false)
            ⊎ ((contains (a ∷ addrs) b ≡ false) × (get s.available_routes b ≡ some r))
      one b r other before =
          let marked =
            get-modify s.available_routes a (λ x. record x { status = unresponsive }) b in
          elim (Bool-cases (a == b)) [
            | inl same ↦ elim (Option-cases (get s.available_routes b)) [
              | inl missing ↦ absurd (ground (arith, same, missing, marked, before))
              | inr (x, known) ↦ inl (ground (arith, same, known, marked, before))
            ]
            | inr apart ↦ inr (ground (arith, apart, other), ground (arith, apart, marked, before))
          ]

  pub check_neighbours_round-ok : (s : State) → IsValid s → (check_neighbours_round now s).0 ≡ ok tt
  unfolding check_neighbours_round silent_parents
  check_neighbours_round-ok s valid =
      (drop_neighbours_lem (silent_parents now s) s valid (HasRoutes-silent now s)).0

  -- In a valid state a round of `run_check_neighbours_task` comes to its end, and no route that is
  -- known after it is that of an active parent that was silent for more than three flood intervals.
  pub check_neighbours_round_lem :
      (s : State) (b : SocketAddr) (r : RouteInfo)
      → IsValid s
      → get (check_neighbours_round now s).1.available_routes b ≡ some r
      → ((check_neighbours_round now s).0 ≡ ok tt) × (is_silent now r ≡ false)
  unfolding check_neighbours_round silent_parents passes
  check_neighbours_round_lem s b r valid found =
      let (ended, routes) =
        drop_neighbours_lem (silent_parents now s) s valid (HasRoutes-silent now s) in
      (
        ended,
        elim (routes b r found) [
          | inl lost ↦ ground (arith, lost)
          | inr (other, before) ↦
              sym (
                contains-keys-iter (λ e. is_silent now e.1) s.available_routes b
                ∙ ap (passes (λ e. is_silent now e.1) b) before)
              ∙ other
        ],
      )
