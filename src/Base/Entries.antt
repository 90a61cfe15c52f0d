-- ===== src/Base/Entries.antt =====
-- Association lists: what a key is bound to, and their entries.
use mathlib.Core.Path.{◌≡◌, refl, subst, ap}
use mathlib.Core.Logic.{inl, inr}
use mathlib.Core.Bool.{Bool, true, false}
use mathlib.Core.Option.{Option, none, some}
use mathlib.Core.List.{List, [], ◌∷◌}
use native.Mathlib.Omega.{arith}
use pessi_streamer.Base.Tests.{Eq, ◌==◌, ==_iff, ==_refl, Bool-cases, if◌then◌else◌}
use pessi_streamer.Base.Lists.{All, any, contains, distinct, In}

module _ {ℓ κ} {K : Type ℓ} {V : Type κ} ⦃e : Eq K⦄ where
  abbrev pub lookup : K → List (K × V) → Option V
  lookup k [] = none
  lookup k ((j, v) ∷ l) = if j == k then some v else lookup k l

module _ {ℓ κ} {K : Type ℓ} {V : Type κ} where
  abbrev pub keys : List (K × V) → List K
  keys [] = []
  keys ((k, v) ∷ l) = k ∷ keys l

  pub All-keys {μ} : (P : K → Type μ) (l : List (K × V)) → All (λ e. P e.0) l → All P (keys l)
  All-keys P [] h = tt
  All-keys P ((k, v) ∷ l) h = (h.0, All-keys P l h.1)

module _ {ℓ κ} {K : Type ℓ} {V : Type κ} ⦃e : Eq K⦄ where
  pub any_of_lookup :
      (l : List (K × V)) (p : K × V → Bool) (k : K) (v : V)
      → lookup k l ≡ some v
      → p (k, v) ≡ true
      → any p l ≡ true
  unfolding any
  any_of_lookup [] p k v h t = cc
  any_of_lookup ((j, w) ∷ l) p k v h t = ground (arith, any_of_lookup l p k v, ==_iff j k)

  pub lookup_absent : (l : List (K × V)) (k : K) → contains (keys l) k ≡ false → lookup k l ≡ none
  unfolding contains
  lookup_absent [] k h = refl
  lookup_absent ((j, w) ∷ l) k h = ground (arith, lookup_absent l k)

  pub contains_of_lookup :
      (l : List (K × V)) (k : K) (v : V) → lookup k l ≡ some v → contains (keys l) k ≡ true
  unfolding contains
  contains_of_lookup [] k v h = cc
  contains_of_lookup ((j, w) ∷ l) k v h = ground (arith, contains_of_lookup l k v)

  -- In an entry list with distinct keys, an entry that passes a test is found by its key.
  pub entry_of_any :
      (l : List (K × V)) (p : K × V → Bool)
      → distinct (keys l) ≡ true
      → any p l ≡ true
      → (k : K) × (v : V) × (lookup k l ≡ some v) × (p (k, v) ≡ true)
  unfolding any distinct
  entry_of_any [] p d h = cc
  entry_of_any ((j, w) ∷ l) p d h = elim (Bool-cases (p (j, w))) [
    | inl first ↦ (j, w, ground (arith, ==_refl j), first)
    | inr later ↦
        let (k, v, found, holds) = entry_of_any l p (ground arith) (ground arith) in
        (k, v, ground (arith, contains_of_lookup l k v, ==_iff j k), holds)
  ]

  pub All-of_lookup {μ} :
      (P : K × V → Type μ) (l : List (K × V))
      → distinct (keys l) ≡ true
      → ((k : K) (v : V) → lookup k l ≡ some v → P (k, v))
      → All P l
  unfolding distinct
  All-of_lookup P [] d h = tt
  All-of_lookup P ((j, w) ∷ l) d h = (
    h j w (ground (arith, ==_refl j)),
    All-of_lookup P l (ground arith)
        (λ k v found. h k v (ground (arith, contains_of_lookup l k v, ==_iff j k))),
  )

  pub All-lookup {μ} :
      (P : K × V → Type μ) (l : List (K × V)) (k : K) (v : V)
      → All P l
      → lookup k l ≡ some v
      → P (k, v)
  All-lookup P [] k v all h = cc
  All-lookup P ((j, w) ∷ l) k v all h = elim (Bool-cases (j == k)) [
    | inl hit ↦
        let same : ◌≡◌ {A = K × V} (j, w) (k, v) = ground (arith, ==_iff j k) in subst P same all.0
    | inr miss ↦ All-lookup P l k v all.1 (ground arith)
  ]

module _ {K V : Type 0} ⦃e : Eq K⦄ where
  pub In-of_lookup : (l : List (K × V)) (k : K) (v : V) → lookup k l ≡ some v → In (k, v) l
  In-of_lookup [] k v h = cc
  In-of_lookup ((j, w) ∷ l) k v h = elim (Bool-cases (j == k)) [
    | inl hit ↦ inl (ground (arith, hit, h, ==_iff j k))
    | inr miss ↦ inr (In-of_lookup l k v (ground (arith, miss, h)))
  ]

pub In-keys : {K V : Type 0} (l : List (K × V)) (e : K × V) → In e l → In e.0 (keys l)
In-keys [] e i = absurd i
In-keys ((k, v) ∷ l) e (inl same) = inl (ap (λ x. x.0) same)
In-keys (x ∷ l) e (inr i) = inr (In-keys l e i)
