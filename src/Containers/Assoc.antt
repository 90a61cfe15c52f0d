-- ===== src/Containers/Assoc.antt =====
-- An implementation of the interface by lists: it shows that the laws can be met, and runs in
-- examples.
use pessi_streamer.Base.{
  ℕ, ◌≡◌, refl, true, not, ◌&&◌, none, some, List, [], ◌∷◌, ◌++◌, arith, Eq, if◌then◌else◌, ltb,
  length, drop_first, distinct, keys, lookup, contains,
}
use pessi_streamer.Containers.{Containers}

-- The binary tests of an `Eq` value that is given by name.
module _ {K V : Type 0} (e : Eq K) where
  abbrev pub assoc_remove : List (K × V) → K → List (K × V)
  assoc_remove [] k = []
  assoc_remove ((j, v) ∷ l) k =
      let rest = assoc_remove l k in if e.beq j k then rest else (j, v) ∷ rest

  abbrev pub assoc_insert : List (K × V) → K → V → List (K × V)
  assoc_insert [] k v = (k, v) ∷ []
  assoc_insert ((j, w) ∷ l) k v =
      let rest = assoc_insert l k v in if e.beq j k then (k, v) ∷ l else (j, w) ∷ rest

  pub lookup-assoc_insert :
      (l : List (K × V)) (k : K) (v : V) (j : K)
      → lookup ⦃e = e⦄ j (assoc_insert l k v) ≡ (if e.beq k j then some v else lookup ⦃e = e⦄ j l)
  lookup-assoc_insert [] k v j = refl
  lookup-assoc_insert ((i, w) ∷ l) k v j =
      ground (arith, lookup-assoc_insert l k v j, e.beq_iff i k, e.beq_iff k j, e.beq_iff i j)

  pub lookup-assoc_remove :
      (l : List (K × V)) (k j : K)
      → lookup ⦃e = e⦄ j (assoc_remove l k) ≡ (if e.beq k j then none else lookup ⦃e = e⦄ j l)
  lookup-assoc_remove [] k j = ground arith
  lookup-assoc_remove ((i, w) ∷ l) k j =
      ground (arith, lookup-assoc_remove l k j, e.beq_iff i k, e.beq_iff k j, e.beq_iff i j)

  -- The first entry of each key.
  abbrev pub assoc_iter : List (K × V) → List (K × V)
  assoc_iter [] = []
  assoc_iter ((j, v) ∷ l) = (j, v) ∷ assoc_remove (assoc_iter l) j

  pub lookup-assoc_iter :
      (l : List (K × V)) (k : K) → lookup ⦃e = e⦄ k (assoc_iter l) ≡ lookup ⦃e = e⦄ k l
  lookup-assoc_iter [] k = refl
  lookup-assoc_iter ((j, v) ∷ l) k =
      ground (arith, lookup-assoc_iter l k, lookup-assoc_remove (assoc_iter l) j k)

  contains-assoc_remove :
      (l : List (K × V)) (k j : K)
      → contains ⦃e = e⦄ (keys (assoc_remove l k)) j
        ≡ (not (e.beq k j) && contains ⦃e = e⦄ (keys l) j)
  unfolding contains
  contains-assoc_remove [] k j = ground arith
  contains-assoc_remove ((i, w) ∷ l) k j =
      ground (arith, contains-assoc_remove l k j, e.beq_iff i k, e.beq_iff k j, e.beq_iff i j)

  distinct-assoc_remove :
      (l : List (K × V)) (k : K)
      → distinct ⦃e = e⦄ (keys l) ≡ true
      → distinct ⦃e = e⦄ (keys (assoc_remove l k)) ≡ true
  unfolding distinct
  distinct-assoc_remove [] k h = refl
  distinct-assoc_remove ((i, w) ∷ l) k h =
      ground (arith, distinct-assoc_remove l k, contains-assoc_remove l k i)

  pub distinct-assoc_iter : (l : List (K × V)) → distinct ⦃e = e⦄ (keys (assoc_iter l)) ≡ true
  unfolding distinct
  distinct-assoc_iter [] = refl
  distinct-assoc_iter ((j, v) ∷ l) = ground (
    arith,
    distinct-assoc_remove (assoc_iter l) j (distinct-assoc_iter l),
    contains-assoc_remove (assoc_iter l) j j,
    e.beq_iff j j,
  )

module _ {A : Type 0} where
  abbrev pub list_push_back : ℕ → List A → A → List A
  list_push_back n r a = if ltb (length r) n then r ++ a ∷ [] else drop_first (r ++ a ∷ [])

instance abbrev pub assoc_containers : Containers
assoc_containers = record {
  Map = λ K V. List (K × V);
  new = [];
  get = λ e m k. lookup ⦃e = e⦄ k m;
  insert = λ e m k v. assoc_insert e m k v;
  remove = λ e m k. assoc_remove e m k;
  iter = λ e m. assoc_iter e m;
  get_new = λ e k. refl;
  get_insert = λ e m k v j. lookup-assoc_insert e m k v j;
  get_remove = λ e m k j. lookup-assoc_remove e m k j;
  lookup_iter = λ e m k. lookup-assoc_iter e m k;
  distinct_iter = λ e m. distinct-assoc_iter e m;
  Ring = λ n A. List A;
  ring = [];
  push_back = λ {n} r a. list_push_back n r a;
  elements = λ r. r;
  elements_ring = refl;
  elements_push_back = λ r a. refl;
}
