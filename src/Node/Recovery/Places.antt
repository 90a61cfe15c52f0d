-- ===== src/Node/Recovery/Places.antt =====
-- Where the redirection leaves each video of a lost node (node/src/node.rs).
use pessi_streamer.Base.{
  ◌≡◌, ◌⊎◌, refl, ap, subst, ◌∙◌, inl, inr, true, false, Option, none, some, List, [], ◌∷◌, ◌++◌,
  arith, ==_refl, nat_eq, contains, contains-append, Bool-cases, ◌==◌, In,
}
use pessi_streamer.Containers.{Containers}
use pessi_streamer.Common.Packet.{SocketAddr, addr_eq, VideoId, SystemTime, Packet}
use pessi_streamer.Common.Effect.{ok, continue, pure, log_error, bind-ok}
use pessi_streamer.Common.Reliable.{Codec}
use pessi_streamer.Node.State.{State}
use pessi_streamer.Node.Best.{get_best_node_to_redirect_lem}
use pessi_streamer.Node.Subscriptions.{request_video_to_node_lem}
use pessi_streamer.Node.Redirect.{request_video_to_node, redirect_to, redirect_all, best_node}
use pessi_streamer.Node.Recovery.Ready.{IsReady, Elsewhere, best-ne-gone, request-IsReady, Writes}

module _ ⦃lib : Containers⦄ ⦃codec : Codec Packet⦄ (now : SystemTime) (addr : SocketAddr)
    (writes : Writes codec) where
  -- The video comes from another node, or is among those that are left over.
  abbrev pub Placed : State → List VideoId → VideoId → Type 0
  Placed s left v = Elsewhere addr s v ⊎ (contains left v ≡ true)

  request-Elsewhere :
      (v : VideoId) (to : SocketAddr) (s : State)
      → IsReady addr s
      → (to == addr) ≡ false
      → (log_error (request_video_to_node now v to) s
          ≡ (ok tt, (request_video_to_node now v to s).1))
        × Elsewhere addr (request_video_to_node now v to s).1 v
        × ((w : VideoId)
            → Elsewhere addr s w
            → Elsewhere addr (request_video_to_node now v to s).1 w)
  request-Elsewhere v to s ready other =
      let (b, written) = writes s.socket.sequence_number v in
      let up = ready.up s.socket.calls in
      let routes = λ (w : VideoId). (request_video_to_node_lem now v to b s w written).2 in
      (
        logged_to s (ap (λ r. r) (request_video_to_node_lem now v to b s v written).0 ∙ rw up),
        (to, ground (arith, routes v, up, ==_refl v), other),
        λ w (c, there, apart). elim (Bool-cases (v == w)) [
          | inl same ↦ (to, ground (arith, routes w, up, same), other)
          | inr distinct' ↦ (c, ground (arith, routes w, up, distinct', there), apart)
        ],
      )
    where
      logged_to :
          (t : State)
          → (request_video_to_node now v to t).0 ≡ ok tt
          → log_error (request_video_to_node now v to) t
            ≡ (ok tt, (request_video_to_node now v to t).1)
      logged_to t e = rw e

  redirect_one :
      (v : VideoId) (s : State)
      → IsReady addr s
      → (best : Option SocketAddr) × (left : List VideoId) × (t : State) × (best_node v s
          ≡ (ok best, s))
        × (redirect_to now v best s ≡ (ok left, t))
        × Placed t left v
        × ((w : VideoId) → Elsewhere addr s w → Elsewhere addr t w)
        × IsReady addr t
  unfolding redirect_to contains
  redirect_one v s ready = elim (get_best_node_to_redirect_lem s v ready.measured) [
    | inl (chosen, _) ↦ (
      none,
      v ∷ [],
      s,
      rw (chosen, best_node),
      refl,
      inr (ground (arith, ==_refl v)),
      λ w h. h,
      ready,
    )
    | inr (to, chosen, best) ↦
        let (logged_eq, placed, kept) =
          request-Elsewhere v to s ready (best-ne-gone addr s v to ready best) in
        (
          some to,
          [],
          (request_video_to_node now v to s).1,
          rw (chosen, best_node),
          ap (λ m. continue m.0 (λ _. pure []) m.1) logged_eq,
          inl placed,
          kept,
          request-IsReady now addr v to s ready,
        )
  ]

  Placed-all :
      (left rest vs : List VideoId) (v : VideoId) (t u : State)
      → Placed t left v
      → ((w : VideoId) → In w vs → Placed u rest w)
      → ((w : VideoId) → Elsewhere addr t w → Elsewhere addr u w)
      → (w : VideoId) → In w (v ∷ vs)
      → Placed u (left ++ rest) w
  Placed-all left rest vs v t u (inl there) all kept w (inl same) =
      inl (kept w (subst (Elsewhere addr t) same there))
  Placed-all left rest vs v t u (inr over) all kept w (inl same) =
      inr (ground (arith, same, over, contains-append left rest w, contains-append left rest v))
  Placed-all left rest vs v t u placed all kept w (inr i) = elim (all w i) [
    | inl there ↦ inl there
    | inr over ↦ inr (ground (arith, over, contains-append left rest w))
  ]

  pub redirect_all_places :
      (vs : List VideoId) (s : State)
      → IsReady addr s
      → (left : List VideoId) × (t : State) × (redirect_all now vs s ≡ (ok left, t))
        × ((w : VideoId) → In w vs → Placed t left w)
        × ((w : VideoId) → Elsewhere addr s w → Elsewhere addr t w)
  unfolding redirect_all
  redirect_all_places [] s ready = ([], s, refl, (λ w i. absurd i), λ w h. h)
  redirect_all_places (v ∷ vs) s ready =
      let (best, left, t, chosen, moved, placed, kept, ready') = redirect_one v s ready in
      let (rest, u, redirected, all, kept') = redirect_all_places vs t ready' in
      (
        left ++ rest,
        u,
        bind-ok (best_node v) _ s chosen
            ∙ bind-ok (redirect_to now v best) _ s moved
            ∙ bind-ok (redirect_all now vs) _ t redirected,
        λ w i. Placed-all left rest vs v t u placed all kept' w i,
        λ w h. kept' w (kept w h),
      )
