-- ===== src/Selection/Order.antt =====
-- The order of keys, the least of a list, and the threshold of the selection.
use pessi_streamer.Base.{
  ℕ, ◌≤◌, ◌≡◌, ◌⊎◌, refl, sym, ◌∙◌, inl, inr, Bool, true, false, Option, some, List, [], ◌∷◌, ltb,
  leb, if◌then◌else◌, All, arith, In, map,
}
use pessi_streamer.Selection.{lex_ltb, max_delay_threshold, least_from}

pub lex_irrefl : (a : List ℕ) → lex_ltb a a ≡ false
unfolding lex_ltb
lex_irrefl [] = refl
lex_irrefl (x ∷ xs) = ground (arith, lex_irrefl xs)

pub lex_asymm : (a b : List ℕ) → lex_ltb a b ≡ true → lex_ltb b a ≡ false
unfolding lex_ltb
lex_asymm [] [] h = cc
lex_asymm [] (y ∷ ys) h = refl
lex_asymm (x ∷ xs) [] h = cc
lex_asymm (x ∷ xs) (y ∷ ys) h = ground (arith, lex_asymm xs ys)

pub lex_trans : (a b c : List ℕ) → lex_ltb a b ≡ false → lex_ltb b c ≡ false → lex_ltb a c ≡ false
unfolding lex_ltb
lex_trans [] [] [] h n = refl
lex_trans [] [] (z ∷ zs) h n = n
lex_trans [] (y ∷ ys) c h n = cc
lex_trans (x ∷ xs) b [] h n = refl
lex_trans (x ∷ xs) [] (z ∷ zs) h n = cc
lex_trans (x ∷ xs) (y ∷ ys) (z ∷ zs) h n = ground (arith, lex_trans xs ys zs)

pub least_from-le :
    (m : ℕ) (xs : List ℕ) → (least_from m xs ≤ m) × All (λ x. least_from m xs ≤ x) xs
unfolding least_from
least_from-le m [] = (omega arith, tt)
least_from-le m (x ∷ xs) =
    let (head, rest) = least_from-le (if ltb x m then x else m) xs in
    (ground arith, (ground arith, rest))

-- The first of two elements is one of them.
pub either :
    {A : Type 0} {x m : A} (b : Bool) → ((if b then x else m) ≡ m) ⊎ ((if b then x else m) ≡ x)
either true = inr refl
either false = inl refl

pub In-pick :
    {A : Type 0} (xs : List A) {r y m x : A} → In r (y ∷ xs) → (y ≡ m) ⊎ (y ≡ x) → In r (m ∷ x ∷ xs)
In-pick xs (inl e) (inl f) = inl (sym f ∙ e)
In-pick xs (inl e) (inr f) = inr (inl (sym f ∙ e))
In-pick xs (inr i) f = inr (inr i)

pub least_from-In : (m : ℕ) (xs : List ℕ) → In (least_from m xs) (m ∷ xs)
unfolding least_from
least_from-In m [] = inl refl
least_from-In m (x ∷ xs) =
    In-pick xs (least_from-In (if ltb x m then x else m) xs) (either (ltb x m))

pub same_value : {A : Type 0} {o : Option A} {a b : A} → o ≡ some a → o ≡ some b → a ≡ b
same_value p q = cc

pub too_far : (d limit d' : ℕ) → leb d limit ≡ false → d ≡ d' → d' ≤ limit → ⊥
too_far d limit d' far same near = ground arith

pub In-map :
    {A B : Type 0} (f : A → B) (b : B) (xs : List A)
    → In b (map f xs)
    → (a : A) × In a xs × (f a ≡ b)
In-map f b [] i = absurd i
In-map f b (x ∷ xs) (inl e) = (x, inl refl, e)
In-map f b (x ∷ xs) (inr i) = let (a, j, e) = In-map f b xs i in (a, inr j, e)

pub least-le-threshold : (least : ℕ) → least ≤ max_delay_threshold least
unfolding max_delay_threshold
least-le-threshold least = omega arith
