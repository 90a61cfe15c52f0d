-- ===== src/Client/Invariant/Window.antt =====
-- The window (client/src/ui.rs) over well-formed tables.
use pessi_streamer.Base.{
  ℕ, ◌≡◌, ◌≢◌, refl, inl, inr, true, Option, none, some, List, [], ◌∷◌, arith, nat_eq, ==_iff,
  contains, All, is_some, Option-cases,
}
use pessi_streamer.Containers.{Containers, get, iter, All-iter, get_of_entry}
use pessi_streamer.Common.Packet.{SocketAddr, addr_eq, VideoId, Duration}
use pessi_streamer.Client.State.{
  NodeStatus, connecting, connected, unresponsive, State, is_connected, average_rtt,
  available_videos,
}
use pessi_streamer.Client.Listing.{available_videos_lem}
use pessi_streamer.Client.Invariant.{IsValid}
use pessi_streamer.Client.View.{all_some, status_line, node_line, stream_row, view}

all_some-ne-none :
    {A B : Type 0} (f : A → Option B) (xs : List A)
    → All (λ x. f x ≢ none) xs
    → all_some f xs ≢ none
unfolding all_some
all_some-ne-none f [] h = λ e. cc
all_some-ne-none f (x ∷ xs) (now, rest) = elim (Option-cases (f x)) [
  | inl missing ↦ absurd (now missing)
  | inr (y, found) ↦ elim (Option-cases (all_some f xs)) [
    | inl missing ↦ absurd (all_some-ne-none f xs rest missing)
    | inr (ys, all) ↦ rw (found, all) (λ e. cc)
  ]
]

All-of_contains : (P : ℕ → Type 0) (xs : List ℕ) → ((x : ℕ) → contains xs x ≡ true → P x) → All P xs
unfolding contains
All-of_contains P [] h = tt
All-of_contains P (x ∷ xs) h =
    (h x (ground (arith, ==_iff x x)), All-of_contains P xs (λ y i. h y (ground (arith, i))))

module _ ⦃lib : Containers⦄ where
  status_line-ne-none :
      (addr : SocketAddr) (st : NodeStatus) (o : Option Duration)
      → (is_connected st ≡ true → o ≢ none)
      → status_line addr st o ≢ none
  unfolding status_line
  status_line-ne-none addr connecting o h = λ e. cc
  status_line-ne-none addr connected none h = absurd (h refl refl)
  status_line-ne-none addr connected (some d) h = λ e. cc
  status_line-ne-none addr unresponsive o h = λ e. cc

  stream_row-ne-none :
      (s : State) (v : VideoId) → is_some (get s.video_names v) ≡ true → stream_row s v ≢ none
  unfolding stream_row
  stream_row-ne-none s v h = elim (Option-cases (get s.video_names v)) [
    | inl missing ↦ absurd (ground (arith, missing, h))
    | inr (name, found) ↦ rw found (λ e. cc)
  ]

  -- Every listed stream is offered by a node, and so has a name.
  named_of_listed :
      (s : State) (v : VideoId)
      → IsValid s
      → contains (available_videos s) v ≡ true
      → is_some (get s.video_names v) ≡ true
  named_of_listed s v h listed =
      let offered = ((available_videos_lem s).1 v) in
      let (a, n, found, offers) =
        get_of_entry s.nodes (λ e. contains e.1.available_videos v)
          (ground (arith, offered, listed)) in
      h.named a n found v offers

  -- Over valid tables the window draws without a panic: no average is a division by zero, and no
  -- listed stream lacks the name that it unwraps.
  pub view-ne-none : (s : State) → IsValid s → view s ≢ none
  unfolding view node_line
  view-ne-none s h = elim (Option-cases (all_some (λ e. node_line e.1) (iter s.nodes))) [
    | inl missing ↦ absurd (
        all_some-ne-none _ (iter s.nodes)
          (All-iter (λ e. node_line e.1 ≢ none) s.nodes
            (λ a n found.
              status_line-ne-none n.addr n.status (average_rtt n) (h.measured a n found)))
          missing)
    | inr (lines, drawn) ↦ elim (Option-cases (all_some (stream_row s) (available_videos s))) [
      | inl missing ↦ absurd (
          all_some-ne-none (stream_row s) (available_videos s)
            (All-of_contains (λ v. stream_row s v ≢ none) (available_videos s)
              (λ v i. stream_row-ne-none s v (named_of_listed s v h i)))
            missing)
      | inr (rows, listed) ↦ rw (drawn, listed) (λ e. cc)
    ]
  ]
