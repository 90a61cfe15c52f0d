-- ===== src/Selection/Table.antt =====
-- The selection rule on a table: the entries that pass a test are the candidates.
use pessi_streamer.Base.{
  ℕ, ◌+◌, ◌*◌, ◌/◌, ◌≤◌, ◌≡◌, ◌≢◌, ◌⊎◌, inl, inr, Bool, true, false, Option, none, some, List, [],
  Eq, retain, retain-All, All-retain, All-of_retain, All-zip, Bool-cases, All, All-In, All-map,
}
use pessi_streamer.Containers.{Containers, Map, get, iter, All-iter, All-get}
use pessi_streamer.Selection.{lex_ltb, select}
use pessi_streamer.Selection.Order.{In-map}
use pessi_streamer.Selection.Spec.{Timed, IsBest, select_lem}

module _ ⦃lib : Containers⦄ {K V : Type 0} ⦃e : Eq K⦄ (average : V → Option ℕ)
    (key : K × V → List ℕ) (offers : K × V → Bool) (m : Map K V) where
  abbrev candidates : List (K × V)
  candidates = retain offers (iter m)

  -- `k` is the key of a best entry: one that passes the test, whose average is within 30% of the
  -- least one of those entries, and whose key no other such entry within that limit goes below.
  pub record IsBestKey (k : K) : Type 0 where
    pub value : V
    pub known : get m k ≡ some value
    pub offered : offers (k, value) ≡ true
    pub delay : ℕ
    pub measured : average value ≡ some delay
    pub least : ℕ
    pub smallest :
        (b : K) (r : V) (d : ℕ)
        → get m b ≡ some r
        → offers (b, r) ≡ true
        → average r ≡ some d
        → least ≤ d
    pub attained :
        (b : K) × (r : V) × (get m b ≡ some r) × (offers (b, r) ≡ true) × (average r ≡ some least)
    pub close : delay ≤ least + least / 100 * 30
    pub first :
        (b : K) (r : V) (d : ℕ)
        → get m b ≡ some r
        → offers (b, r) ≡ true
        → average r ≡ some d
        → d ≤ least + least / 100 * 30
        → lex_ltb (key (b, r)) (key (k, value)) ≡ false

  candidates-All : All (λ x. (get m x.0 ≡ some x.1) × (offers x ≡ true)) candidates
  candidates-All =
      All-zip (λ x. get m x.0 ≡ some x.1) (λ x. offers x ≡ true) candidates
        (retain-All _ offers (iter m) (All-iter (λ x. get m x.0 ≡ some x.1) m (λ k v found. found)))
        (All-retain offers (iter m))

  -- What holds of all candidates holds of every entry that passes the test.
  of_candidates :
      (P : K × V → Type 0)
      → All P candidates
      → (b : K) (r : V) → get m b ≡ some r
      → offers (b, r) ≡ true
      → P (b, r)
  of_candidates P all b r found offered =
      All-get (λ x. offers x ≡ true → P x) m b r (All-of_retain P offers (iter m) all) found offered

  IsBestKey-of_entry : (x : K × V) → IsBest (λ y. average y.1) key candidates x → IsBestKey x.0
  IsBestKey-of_entry x best =
      let all = candidates-All in
      let (known, offered) = All-In _ candidates x all best.chosen in
      let (y, inside, least) =
        In-map (λ z. average z.1) (some best.least) candidates best.attained in
      let (y_known, y_offered) = All-In _ candidates y all inside in
      record {
        value = x.1;
        known = known;
        offered = offered;
        delay = best.delay;
        measured = best.measured;
        least = best.least;
        smallest = λ b r d f o q. of_candidates _ best.smallest b r f o d q;
        attained = (y.0, y.1, y_known, y_offered, least);
        close = best.close;
        first = λ b r d f o q near. of_candidates _ best.first b r f o d q near;
      }

  -- Where the averages of all entries are defined, the selection does not panic. It yields nothing
  -- exactly if no entry passes the test, and otherwise the key of a best entry.
  pub select_key_lem :
      ((k : K) (r : V) → get m k ≡ some r → offers (k, r) ≡ true → average r ≢ none)
      → ((select (λ x. average x.1) key candidates ≡ some none)
          × ((b : K) (r : V) → get m b ≡ some r → offers (b, r) ≡ false))
        ⊎ ((x : K × V) × (select (λ y. average y.1) key candidates ≡ some (some x)) × IsBestKey x.0)
  select_key_lem measured = elim (select_lem (λ x. average x.1) key candidates timed) [
    | inl (empty, chosen) ↦ inl (chosen, λ b r found. not_offered b r found empty)
    | inr (x, chosen, best) ↦ inr (x, chosen, IsBestKey-of_entry x best)
  ]
    where
      timed : Timed (λ x. average x.1) candidates
      timed = All-map _ (λ x h. measured x.0 x.1 h.0 h.1) candidates-All

      not_offered : (b : K) (r : V) → get m b ≡ some r → candidates ≡ [] → offers (b, r) ≡ false
      not_offered b r found empty = elim (Bool-cases (offers (b, r))) [
        | inl yes' ↦ absurd (of_candidates (λ _. ⊥) (rw empty tt) b r found yes')
        | inr no' ↦ no'
      ]
