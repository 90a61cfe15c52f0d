-- ===== src/Selection.antt =====
-- The selection rule that `get_best_node_to_redirect` of node/src/node.rs and `select_best_node` of
-- client/src/client.rs write out for their own tables: among the candidates whose average delay is
-- within 30% of the least one, the first with the least key. The entries, their average and their
-- key are arguments. An average is `none` where the code panics (a division by zero).
pub mod Order
pub mod Spec
pub mod Table
use pessi_streamer.Base.{
  ℕ, ◌+◌, ◌*◌, ◌/◌, Bool, true, false, ◌&&◌, ◌||◌, Option, none, some, List, [], ◌∷◌, ltb, leb,
  nat_beq, if◌then◌else◌,
}

-- Tuples are compared by their first difference.
unfoldable pub lex_ltb : List ℕ → List ℕ → Bool
lex_ltb [] [] = false
lex_ltb [] (b ∷ bs) = true
lex_ltb (a ∷ as') [] = false
lex_ltb (a ∷ as') (b ∷ bs) = ltb a b || (nat_beq a b && lex_ltb as' bs)

abbrev pub delay_threshold_percentage : ℕ
delay_threshold_percentage = 30

unfoldable pub max_delay_threshold : ℕ → ℕ
max_delay_threshold least = least + least / 100 * delay_threshold_percentage

abbrev pub and_then {ℓ κ} : {A : Type ℓ} {B : Type κ} → Option A → (A → Option B) → Option B
and_then none f = none
and_then (some a) f = f a

unfoldable pub least_from : ℕ → List ℕ → ℕ
least_from m [] = m
least_from m (x ∷ xs) = least_from (if ltb x m then x else m) xs

-- `iter().min()`
unfoldable pub minimum : List ℕ → Option ℕ
minimum [] = none
minimum (x ∷ xs) = some (least_from x xs)

module _ {E : Type 0} where
  -- `iter().map(average)`
  unfoldable pub averages : (E → Option ℕ) → List E → Option (List ℕ)
  averages average [] = some []
  averages average (e ∷ es) =
      and_then (average e) λ d. and_then (averages average es) λ ds. some (d ∷ ds)

  -- `iter().filter(|e| average(e) <= limit)`
  unfoldable pub within : (E → Option ℕ) → ℕ → List E → Option (List E)
  within average limit [] = some []
  within average limit (e ∷ es) =
      and_then (average e) λ d.
        and_then (within average limit es) λ rest. some (if leb d limit then e ∷ rest else rest)

  -- `iter().min_by_key(key)`: the first of the least ones.
  unfoldable pub min_by_key_from : (E → List ℕ) → E → List E → E
  min_by_key_from key best [] = best
  min_by_key_from key best (e ∷ es) =
      min_by_key_from key (if lex_ltb (key e) (key best) then e else best) es

  unfoldable pub min_by_key : (E → List ℕ) → List E → Option E
  min_by_key key [] = none
  min_by_key key (e ∷ es) = some (min_by_key_from key e es)

  -- The outer `none` is a panic, the inner one no candidate.
  unfoldable pub select : (E → Option ℕ) → (E → List ℕ) → List E → Option (Option E)
  select average key es = and_then (averages average es) λ ds. elim (minimum ds) [
    | none ↦ some none
    | some least ↦
        and_then (within average (max_delay_threshold least) es) λ fast. some (min_by_key key fast)
  ]
