-- ===== src/Base/Lists.antt =====
-- Lists measured by native numbers, and Boolean filters and tests.
use Prim.Native.Nat.{ℕ, suc, ◌+◌, ◌-◌, ◌≤◌}
use mathlib.Core.Path.{◌≡◌, refl, subst, ap, ◌∙◌}
use mathlib.Core.Logic.{◌⊎◌, inl, inr}
use mathlib.Core.Bool.{Bool, true, false, ◌&&◌, ◌||◌, not}
use mathlib.Core.List.{List, [], ◌∷◌, ◌++◌}
use native.Mathlib.Omega.{arith}
use pessi_streamer.Base.Tests.{Eq, ◌==◌, ==_iff, Bool-cases, if◌then◌else◌}

module _ {ℓ} {A : Type ℓ} where
  abbrev pub length : List A → ℕ
  length [] = 0
  length (x ∷ xs) = suc (length xs)

  abbrev pub All {κ} : (A → Type κ) → List A → Type κ
  All P [] = Unit
  All P (x ∷ xs) = P x × All P xs

  abbrev pub is_empty : List A → Bool
  is_empty [] = true
  is_empty (x ∷ xs) = false

  -- `iter().any(p)`
  unfoldable pub any : (A → Bool) → List A → Bool
  any p [] = false
  any p (x ∷ xs) = p x || any p xs

  -- `retain(p)`, and `iter().filter(p).collect()`
  unfoldable pub retain : (A → Bool) → List A → List A
  retain p [] = []
  retain p (x ∷ xs) = let rest = retain p xs in if p x then x ∷ rest else rest

  pub length-append : (xs ys : List A) → length (xs ++ ys) ≡ length xs + length ys
  length-append [] ys = omega arith
  length-append (x ∷ xs) ys = omega (arith, length-append xs ys)

  pub length-retain-le : (p : A → Bool) (xs : List A) → length (retain p xs) ≤ length xs
  unfolding retain
  length-retain-le p [] = omega arith
  length-retain-le p (x ∷ xs) = ground (arith, length-retain-le p xs)

  pub All-append {κ} : (P : A → Type κ) (xs ys : List A) → All P xs → All P ys → All P (xs ++ ys)
  All-append P [] ys hx hy = hy
  All-append P (x ∷ xs) ys hx hy = (hx.0, All-append P xs ys hx.1 hy)

  -- What `retain` keeps satisfies its test.
  pub All-retain : (p : A → Bool) (xs : List A) → All (λ x. p x ≡ true) (retain p xs)
  unfolding retain
  All-retain p [] = tt
  All-retain p (x ∷ xs) = ground (arith, All-retain p xs)

  pub retain-All {κ} :
      (P : A → Type κ) (p : A → Bool) (xs : List A) → All P xs → All P (retain p xs)
  unfolding retain
  retain-All P p [] h = tt
  retain-All P p (x ∷ xs) h = ground (arith, retain-All P p xs h.1)

  -- What holds of everything holds of all elements.
  pub All-all {κ} : {P : A → Type κ} → ((x : A) → P x) → (xs : List A) → All P xs
  All-all f [] = tt
  All-all f (x ∷ xs) = (f x, All-all f xs)

  pub All-zip {κ} : (P Q : A → Type κ) (xs : List A) → All P xs → All Q xs → All (λ x. P x × Q x) xs
  All-zip P Q [] hp hq = tt
  All-zip P Q (x ∷ xs) hp hq = ((hp.0, hq.0), All-zip P Q xs hp.1 hq.1)

  -- What holds of all that `retain` keeps holds of all that pass its test.
  pub All-of_retain {κ} :
      (P : A → Type κ) (p : A → Bool) (xs : List A)
      → All P (retain p xs)
      → All (λ x. p x ≡ true → P x) xs
  unfolding retain
  All-of_retain P p [] h = tt
  All-of_retain P p (x ∷ xs) h = elim (Bool-cases (p x)) [
    | inl kept ↦
        let h' : P x × All P (retain p xs) = rw (kept, retain) at h in
        (λ _. h'.0, All-of_retain P p xs h'.1)
    | inr dropped ↦
        let h' : All P (retain p xs) = rw (dropped, retain) at h in
        (λ e. absurd (cc (e, dropped)), All-of_retain P p xs h')
  ]

  pub All-map {κ} : {P Q : A → Type κ} (xs : List A) → ((x : A) → P x → Q x) → All P xs → All Q xs
  All-map [] f h = tt
  All-map (x ∷ xs) f h = (f x h.0, All-map xs f h.1)

  abbrev pub drop_first : List A → List A
  drop_first [] = []
  drop_first (x ∷ xs) = xs

  pub length-drop_first : (xs : List A) → length (drop_first xs) ≡ length xs - 1
  length-drop_first [] = omega arith
  length-drop_first (x ∷ xs) = omega arith

module _ {A : Type 0} where
  -- `a` is an element.
  abbrev pub In : A → List A → Type 0
  In a [] = ⊥
  In a (x ∷ xs) = (x ≡ a) ⊎ In a xs

  pub All-In {κ} : (P : A → Type κ) (xs : List A) (a : A) → All P xs → In a xs → P a
  All-In P [] a h i = absurd i
  All-In P (x ∷ xs) a h (inl e) = subst P e h.0
  All-In P (x ∷ xs) a h (inr i) = All-In P xs a h.1 i

module _ {ℓ} {A : Type ℓ} ⦃e : Eq A⦄ where
  -- `contains(&a)`
  unfoldable pub contains : List A → A → Bool
  contains [] a = false
  contains (x ∷ xs) a = x == a || contains xs a

  pub contains-append :
      (xs ys : List A) (a : A) → contains (xs ++ ys) a ≡ (contains xs a || contains ys a)
  unfolding contains
  contains-append [] ys a = refl
  contains-append (x ∷ xs) ys a = ground (arith, contains-append xs ys a)

  pub contains-retain :
      (p : A → Bool) (xs : List A) (a : A) → contains (retain p xs) a ≡ (p a && contains xs a)
  unfolding contains retain
  contains-retain p [] a = ground arith
  contains-retain p (x ∷ xs) a = ground (arith, contains-retain p xs a, ==_iff x a)

  -- No element occurs twice.
  unfoldable pub distinct : List A → Bool
  unfolding contains
  distinct [] = true
  distinct (x ∷ xs) = not (contains xs x) && distinct xs

  pub distinct-retain :
      (p : A → Bool) (xs : List A) → distinct xs ≡ true → distinct (retain p xs) ≡ true
  unfolding distinct retain
  distinct-retain p [] h = refl
  distinct-retain p (x ∷ xs) h = ground (arith, distinct-retain p xs, contains-retain p xs x)

  pub distinct-push :
      (xs : List A) (a : A)
      → distinct xs ≡ true
      → contains xs a ≡ false
      → distinct (xs ++ a ∷ []) ≡ true
  unfolding distinct contains
  distinct-push [] a h n = refl
  distinct-push (x ∷ xs) a h n =
      ground (arith, distinct-push xs a, contains-append xs (a ∷ []) x, ==_iff x a, ==_iff a x)

module _ {A : Type 0} where
  pub In-retain : (p : A → Bool) (xs : List A) (a : A) → In a xs → p a ≡ true → In a (retain p xs)
  unfolding retain
  In-retain p [] a i h = absurd i
  In-retain p (x ∷ xs) a (inl e) h = rw (ap p e ∙ h) (inl e)
  In-retain p (x ∷ xs) a (inr i) h = elim (Bool-cases (p x)) [
    | inl kept ↦ rw kept (inr (In-retain p xs a i h))
    | inr dropped ↦ rw dropped (In-retain p xs a i h)
  ]
