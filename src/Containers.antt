-- ===== src/Containers.antt =====
-- The containers of third-party crates, as an interface: `dashmap::DashMap` and
-- `circular_buffer::CircularBuffer`. The program is modelled for every implementation of it, so
-- for every order in which a map is iterated.
pub mod Assoc
pub mod Keys
use mathlib.Core.Option
use pessi_streamer.Base.{
  ℕ, ◌≡◌, Bool, ◌==◌, ==_iff, inl, inr, Bool-cases, Option-cases, is_some, arith, ◌<◌, any, All,
  All-of_lookup, All-lookup, any_of_lookup, In, In-of_lookup, entry_of_any, sym, subst, ◌∙◌, true,
  Option, none, some, List, [], ◌∷◌, ◌++◌, Eq, if◌then◌else◌, ltb, length, length-append,
  length-drop_first, drop_first, distinct, keys, lookup,
}

pub record Containers : Type 1 where
  pub Map : Type 0 → Type 0 → Type 0
  pub new : {K V : Type 0} → Map K V
  pub get : {K V : Type 0} → Eq K → Map K V → K → Option V
  pub insert : {K V : Type 0} → Eq K → Map K V → K → V → Map K V
  pub remove : {K V : Type 0} → Eq K → Map K V → K → Map K V
  -- The entries, in the order of iteration.
  pub iter : {K V : Type 0} → Eq K → Map K V → List (K × V)
  pub get_new : {K V : Type 0} (e : Eq K) (k : K) → get e (new {K = K} {V = V}) k ≡ none
  pub get_insert :
      {K V : Type 0} (e : Eq K) (m : Map K V) (k : K) (v : V) (j : K)
      → get e (insert e m k v) j ≡ (if e.beq k j then some v else get e m j)
  pub get_remove :
      {K V : Type 0} (e : Eq K) (m : Map K V) (k j : K)
      → get e (remove e m k) j ≡ (if e.beq k j then none else get e m j)
  -- Iteration yields each key once, with its value.
  pub lookup_iter :
      {K V : Type 0} (e : Eq K) (m : Map K V) (k : K) → lookup ⦃e = e⦄ k (iter e m) ≡ get e m k
  pub distinct_iter :
      {K V : Type 0} (e : Eq K) (m : Map K V) → distinct ⦃e = e⦄ (keys (iter e m)) ≡ true
  -- A ring of at most `n` elements: a push on a full one drops the oldest.
  pub Ring : ℕ → Type 0 → Type 0
  pub ring : {n : ℕ} {A : Type 0} → Ring n A
  pub push_back : {n : ℕ} {A : Type 0} → Ring n A → A → Ring n A
  pub elements : {n : ℕ} {A : Type 0} → Ring n A → List A
  pub elements_ring : {n : ℕ} {A : Type 0} → elements (ring {n = n} {A = A}) ≡ []
  pub elements_push_back :
      {n : ℕ} {A : Type 0} (r : Ring n A) (a : A)
      → elements (push_back r a) ≡ (
          if ltb (length (elements r)) n
          then elements r ++ a ∷ []
          else drop_first (elements r ++ a ∷ []))

-- The methods that the program calls, at the instances in scope.
module _ ⦃lib : Containers⦄ where
  abbrev pub Map : Type 0 → Type 0 → Type 0
  Map = lib.Map

  abbrev pub Ring : ℕ → Type 0 → Type 0
  Ring = lib.Ring

module _ ⦃lib : Containers⦄ {K V : Type 0} where
  abbrev pub new_map : lib.Map K V
  new_map = lib.new

module _ ⦃lib : Containers⦄ {K V : Type 0} ⦃e : Eq K⦄ where
  abbrev pub iter : lib.Map K V → List (K × V)
  iter m = lib.iter e m

  abbrev pub get : lib.Map K V → K → Option V
  get m k = lib.get e m k

  abbrev pub insert : lib.Map K V → K → V → lib.Map K V
  insert m k v = lib.insert e m k v

  abbrev pub remove : lib.Map K V → K → lib.Map K V
  remove m k = lib.remove e m k

  -- `contains_key`
  abbrev pub contains_key : lib.Map K V → K → Bool
  contains_key m k = is_some (lib.get e m k)

  -- `if let Some(mut v) = m.get_mut(&k) { *v = f(v) }`
  abbrev pub modify : lib.Map K V → K → (V → V) → lib.Map K V
  modify m k f = elim (lib.get e m k) [ none ↦ m | some v ↦ lib.insert e m k (f v) ]

  pub get-new : (k : K) → get (new_map {V = V}) k ≡ none
  get-new k = lib.get_new e k

  pub get-insert :
      (m : lib.Map K V) (k : K) (v : V) (j : K)
      → get (insert m k v) j ≡ (if k == j then some v else get m j)
  get-insert m k v j = lib.get_insert e m k v j

  pub get-remove :
      (m : lib.Map K V) (k j : K) → get (remove m k) j ≡ (if k == j then none else get m j)
  get-remove m k j = lib.get_remove e m k j

  -- `modify` applies the function at its key, if there is a value, and nowhere else.
  pub get-modify :
      (m : lib.Map K V) (k : K) (f : V → V) (j : K)
      → get (modify m k f) j ≡ (if k == j then Option.map f (get m j) else get m j)
  get-modify m k f j = elim (Option-cases (lib.get e m k)) [
    | inl missing ↦ ground (arith, missing, e.beq_iff k j)
    | inr (v, found) ↦ ground (arith, found, e.beq_iff k j, lib.get_insert e m k (f v) j)
  ]

  -- What holds of all values holds after an insertion of a value of which it holds.
  pub insert-Found {κ} :
      (P : K → V → Type κ) (m : lib.Map K V) (k : K) (v : V)
      → P k v
      → ((j : K) (w : V) → lib.get e m j ≡ some w → P j w)
      → (j : K) (w : V) → lib.get e (lib.insert e m k v) j ≡ some w
      → P j w
  insert-Found P m k v new old j w found = elim (Bool-cases (e.beq k j)) [
    | inl same ↦
        let keys' : k ≡ j = (e.beq_iff k j).0 same in
        let values : v ≡ w = ground (arith, same, lib.get_insert e m k v j) in
        subst (λ x. P x w) keys' (subst (P k) values new)
    | inr other ↦ old j w (ground (arith, other, lib.get_insert e m k v j))
  ]

  pub modify-Found {κ} :
      (P : K → V → Type κ) (m : lib.Map K V) (k : K) (f : V → V)
      → ((w : V) → lib.get e m k ≡ some w → P k (f w))
      → ((j : K) (w : V) → lib.get e m j ≡ some w → P j w)
      → (j : K) (w : V) → lib.get e (modify m k f) j ≡ some w
      → P j w
  modify-Found P m k f new old j w found = elim (Option-cases (lib.get e m k)) [
    | inl missing ↦ old j w (rw (missing, modify) at found)
    | inr (v, there) ↦ insert-Found P m k (f v) (new v there) old j w (rw (there, modify) at found)
  ]

  -- An entry of the iteration is what `get` finds.
  pub get_of_entry :
      (m : lib.Map K V) (p : K × V → Bool)
      → any p (lib.iter e m) ≡ true
      → (k : K) × (v : V) × (lib.get e m k ≡ some v) × (p (k, v) ≡ true)
  get_of_entry m p h =
      let (k, v, found, holds) = entry_of_any (lib.iter e m) p (lib.distinct_iter e m) h in
      (k, v, sym (lib.lookup_iter e m k) ∙ found, holds)

  -- What `get` finds is an entry of the iteration.
  pub entry_of_get :
      (m : lib.Map K V) (p : K × V → Bool) (k : K) (v : V)
      → lib.get e m k ≡ some v
      → p (k, v) ≡ true
      → any p (lib.iter e m) ≡ true
  entry_of_get m p k v found holds =
      any_of_lookup (lib.iter e m) p k v (lib.lookup_iter e m k ∙ found) holds

  pub In-iter :
      (m : lib.Map K V) (k : K) (v : V) → lib.get e m k ≡ some v → In (k, v) (lib.iter e m)
  In-iter m k v found = In-of_lookup (lib.iter e m) k v (lib.lookup_iter e m k ∙ found)

  -- A property of all that `get` finds holds of all entries of the iteration.
  pub All-iter {κ} :
      (P : K × V → Type κ) (m : lib.Map K V)
      → ((k : K) (v : V) → lib.get e m k ≡ some v → P (k, v))
      → All P (lib.iter e m)
  All-iter P m h =
      All-of_lookup P (lib.iter e m) (lib.distinct_iter e m)
        λ k v found. h k v (sym (lib.lookup_iter e m k) ∙ found)

  pub All-get {κ} :
      (P : K × V → Type κ) (m : lib.Map K V) (k : K) (v : V)
      → All P (lib.iter e m)
      → lib.get e m k ≡ some v
      → P (k, v)
  All-get P m k v all found = All-lookup P (lib.iter e m) k v all (lib.lookup_iter e m k ∙ found)

module _ ⦃lib : Containers⦄ {n : ℕ} {A : Type 0} where
  abbrev pub empty_ring : lib.Ring n A
  empty_ring = lib.ring

  abbrev pub elements : lib.Ring n A → List A
  elements r = lib.elements r

  abbrev pub push_back : lib.Ring n A → A → lib.Ring n A
  push_back r a = lib.push_back r a

  pub elements-ring : elements (empty_ring) ≡ []
  elements-ring = lib.elements_ring {n = n} {A = A}

  -- A push leaves at least one element, where there is room for one.
  pub length-push_back : (r : lib.Ring n A) (a : A) → 0 < n → 0 < length (elements (push_back r a))
  length-push_back r a h = ground (
    arith,
    lib.elements_push_back r a,
    length-append (lib.elements r) (a ∷ []),
    length-drop_first (lib.elements r ++ a ∷ []),
  )
