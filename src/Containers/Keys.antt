-- ===== src/Containers/Keys.antt =====
-- The keys of the entries that pass a test, in a map of any implementation.
use pessi_streamer.Base.{
  ◌≡◌, refl, ap, sym, ◌∙◌, inl, inr, Bool, true, false, ◌&&◌, Option, none, some, List, [], ◌∷◌,
  arith, ==_iff, ==_refl, contains, retain, keys, any, Bool-cases, ◌==◌, Eq,
}
use pessi_streamer.Containers.{Containers, get, iter, get_of_entry, entry_of_get}

module _ {K V : Type 0} ⦃e : Eq K⦄ where
  contains-keys :
      (p : K × V → Bool) (l : List (K × V)) (k : K)
      → contains (keys (retain p l)) k ≡ any (λ x. (x.0 == k) && p x) l
  unfolding contains retain any
  contains-keys p [] k = refl
  contains-keys p (x ∷ l) k = ground (arith, contains-keys p l k)

  module _ ⦃lib : Containers⦄ where
    -- The keys whose values pass a test.
    unfoldable pub passes : (K × V → Bool) → K → Option V → Bool
    passes p k none = false
    passes p k (some v) = p (k, v)

    pub contains-keys-iter :
        (p : K × V → Bool) (m : lib.Map K V) (k : K)
        → contains (keys (retain p (iter m))) k ≡ passes p k (get m k)
    unfolding passes
    contains-keys-iter p m k = contains-keys p (iter m) k ∙ go (get m k) refl
      where
        q : K × V → Bool
        q x = (x.0 == k) && p x

        go : (o : Option V) → get m k ≡ o → any q (iter m) ≡ passes p k o
        go o found = elim (Bool-cases (any q (iter m))) [
          | inl some_passes ↦
              let (j, v, there, holds) = get_of_entry m q some_passes in
              let same : j ≡ k = (==_iff j k).0 (ground (arith, holds)) in
              passing o j v same (sym found ∙ ap (get m) (sym same) ∙ there) (ground (arith, holds))
                some_passes
          | inr none_passes ↦ failing o found none_passes
        ]
          where
            passing :
                (o : Option V) (j : K) (v : V)
                → j ≡ k
                → o ≡ some v
                → p (j, v) ≡ true
                → any q (iter m) ≡ true
                → any q (iter m) ≡ passes p k o
            passing o j v same e holds a = rw e (a ∙ sym holds ∙ ap (λ x. p (x, v)) same)

            failing :
                (o : Option V)
                → get m k ≡ o
                → any q (iter m) ≡ false
                → any q (iter m) ≡ passes p k o
            failing none e none_passes = none_passes
            failing (some v) e none_passes = elim (Bool-cases (p (k, v))) [
              | inl holds ↦ absurd (
                  ground
                    (arith, none_passes, entry_of_get m q k v e (ground (arith, holds, ==_refl k))))
              | inr fails ↦ none_passes ∙ sym fails
            ]
