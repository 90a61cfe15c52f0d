-- ===== src/Client/Listing.antt =====
-- What `available_videos` of client/src/client.rs lists: `sort_unstable`, then `dedup`.
use pessi_streamer.Base.{
  ℕ, ◌≤◌, ◌<◌, ◌≡◌, refl, ap, ◌∙◌, inl, inr, ◌||◌, List, [], ◌∷◌, arith, nat_eq, ◌==◌, ==_iff,
  contains, contains-append, any, Bool-cases,
}
use pessi_streamer.Containers.{Containers, iter}
use pessi_streamer.Common.Packet.{SocketAddr, addr_eq, VideoId}
use pessi_streamer.Client.State.{
  Node, State, insert_sorted, sorted, dedup_from, dedup, listed_videos, available_videos,
}

-- Each number is above the one before it: nothing is listed twice, and the order is given.
abbrev pub IsAscending : List ℕ → Type 0
IsAscending [] = Unit
IsAscending (x ∷ []) = Unit
IsAscending (x ∷ y ∷ ys) = (x < y) × IsAscending (y ∷ ys)

abbrev IsSorted : List ℕ → Type 0
IsSorted [] = Unit
IsSorted (x ∷ []) = Unit
IsSorted (x ∷ y ∷ ys) = (x ≤ y) × IsSorted (y ∷ ys)

insert_sorted-IsSorted : (x : ℕ) (ys : List ℕ) → IsSorted ys → IsSorted (insert_sorted x ys)
unfolding insert_sorted
insert_sorted-IsSorted x [] h = tt
insert_sorted-IsSorted x (y ∷ []) h = ground arith
insert_sorted-IsSorted x (y ∷ z ∷ zs) h = ground (arith, insert_sorted-IsSorted x (z ∷ zs))

sorted-IsSorted : (xs : List ℕ) → IsSorted (sorted xs)
unfolding sorted
sorted-IsSorted [] = tt
sorted-IsSorted (x ∷ xs) = insert_sorted-IsSorted x (sorted xs) (sorted-IsSorted xs)

contains-insert_sorted :
    (x : ℕ) (ys : List ℕ) (a : ℕ) → contains (insert_sorted x ys) a ≡ ((x == a) || contains ys a)
unfolding insert_sorted contains
contains-insert_sorted x [] a = refl
contains-insert_sorted x (y ∷ ys) a = ground (arith, contains-insert_sorted x ys a)

contains-sorted : (xs : List ℕ) (a : ℕ) → contains (sorted xs) a ≡ contains xs a
unfolding sorted contains
contains-sorted [] a = refl
contains-sorted (x ∷ xs) a =
    ground (arith, contains-insert_sorted x (sorted xs) a, contains-sorted xs a)

dedup_from-IsAscending :
    (x : ℕ) (ys : List ℕ) → IsSorted (x ∷ ys) → IsAscending (x ∷ dedup_from x ys)
unfolding dedup_from
dedup_from-IsAscending x [] h = tt
dedup_from-IsAscending x (y ∷ ys) h = elim (Bool-cases (x == y)) [
  | inl same ↦ let x≡y = (==_iff x y).0 same in rw same (rw x≡y (dedup_from-IsAscending y ys h.1))
  | inr other ↦ rw other (ground (arith, h.0, other), dedup_from-IsAscending y ys h.1)
]

contains-dedup_from :
    (x : ℕ) (ys : List ℕ) (a : ℕ)
    → ((x == a) || contains (dedup_from x ys) a) ≡ ((x == a) || contains ys a)
unfolding dedup_from contains
contains-dedup_from x [] a = refl
contains-dedup_from x (y ∷ ys) a = ground (arith, contains-dedup_from y ys a)

dedup-IsAscending : (xs : List ℕ) → IsSorted xs → IsAscending (dedup xs)
unfolding dedup
dedup-IsAscending [] h = tt
dedup-IsAscending (x ∷ xs) h = dedup_from-IsAscending x xs h

contains-dedup : (xs : List ℕ) (a : ℕ) → contains (dedup xs) a ≡ contains xs a
unfolding dedup contains
contains-dedup [] a = refl
contains-dedup (x ∷ xs) a = contains-dedup_from x xs a

module _ ⦃lib : Containers⦄ where
  listed_videos_lem :
      (es : List (SocketAddr × Node)) (v : VideoId)
      → contains (listed_videos es) v ≡ any (λ e. contains e.1.available_videos v) es
  unfolding listed_videos contains any
  listed_videos_lem [] v = refl
  listed_videos_lem (e ∷ es) v =
      contains-append e.1.available_videos (listed_videos es) v
      ∙ ap (λ b. contains e.1.available_videos v || b) (listed_videos_lem es v)

  -- `available_videos` lists, in ascending order and each once, exactly the videos that some
  -- node offers.
  pub available_videos_lem :
      (s : State)
      → IsAscending (available_videos s)
        × ((v : VideoId)
            → contains (available_videos s) v
              ≡ any (λ e. contains e.1.available_videos v) (iter s.nodes))
  unfolding available_videos
  available_videos_lem s =
      let vs = listed_videos (iter s.nodes) in
      (
        dedup-IsAscending (sorted vs) (sorted-IsSorted vs),
        λ v.
            contains-dedup (sorted vs) v
            ∙ contains-sorted vs v
            ∙ listed_videos_lem (iter s.nodes) v,
      )
