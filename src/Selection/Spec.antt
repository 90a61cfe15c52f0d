-- ===== src/Selection/Spec.antt =====
-- What the selection rule chooses.
use pessi_streamer.Base.{
  ℕ, ◌+◌, ◌*◌, ◌/◌, ◌≤◌, ◌≡◌, ◌≢◌, ◌⊎◌, refl, ap, ◌∙◌, inl, inr, false, Option, none, some, List,
  [], ◌∷◌, leb, if◌then◌else◌, All, All-map, All-In, arith, Bool-cases, Option-cases, leb→le, In,
  All-In, map,
}
use pessi_streamer.Selection.{
  lex_ltb, max_delay_threshold, and_then, least_from, minimum, averages, within, min_by_key_from,
  min_by_key, select,
}
use pessi_streamer.Selection.Order.{
  lex_irrefl, lex_asymm, lex_trans, least_from-le, either, In-pick, least_from-In, same_value,
  too_far, In-map, least-le-threshold,
}

-- The averages of all entries are defined.
abbrev pub Timed : {E : Type 0} → (E → Option ℕ) → List E → Type 0
Timed average es = All (λ e. average e ≢ none) es

module _ {E : Type 0} (average : E → Option ℕ) (key : E → List ℕ) where
  -- `e` is chosen among `es`: it is one of them, its average is within the threshold of the least
  -- average of all, and no entry that is within the threshold has a smaller key.
  pub record IsBest (es : List E) (e : E) : Type 0 where
    pub chosen : In e es
    pub least : ℕ
    pub delay : ℕ
    pub measured : average e ≡ some delay
    pub attained : In (some least) (map average es)
    pub smallest : All (λ x. (d : ℕ) → average x ≡ some d → least ≤ d) es
    pub close : delay ≤ least + least / 100 * 30
    pub first :
        All
          (λ x.
            (d : ℕ)
            → average x ≡ some d
            → d ≤ least + least / 100 * 30
            → lex_ltb (key x) (key e) ≡ false)
          es

module _ {E : Type 0} (average : E → Option ℕ) where
  -- Where all averages are defined, their list is that of the entries.
  averages_known :
      (es : List E)
      → Timed average es
      → (ds : List ℕ) × (averages average es ≡ some ds)
        × All (λ e. (d : ℕ) → average e ≡ some d → In d ds) es
        × ((d : ℕ) → In d ds → In (some d) (map average es))
  unfolding averages
  averages_known [] t = ([], refl, tt, λ d i. i)
  averages_known (e ∷ es) t = elim (Option-cases (average e)) [
    | inl missing ↦ absurd (t.0 missing)
    | inr (d₀, known) ↦
        let (ds, rest, all, back) = averages_known es t.1 in
        (
          d₀ ∷ ds,
          rw (known, rest),
          ((λ d h. inl (cc (known, h))), All-map es (λ x f d h. inr (f d h)) all),
          λ d i. elim i [ inl same ↦ inl (known ∙ ap some same) | inr j ↦ inr (back d j) ],
        )
  ]

  -- The entries that are kept are those within the limit.
  within_known :
      (limit : ℕ) (es : List E)
      → Timed average es
      → (fast : List E) × (within average limit es ≡ some fast)
        × All (λ e. In e es × ((d : ℕ) × (average e ≡ some d) × (d ≤ limit))) fast
        × All (λ e. (d : ℕ) → average e ≡ some d → d ≤ limit → In e fast) es
  unfolding within
  within_known limit [] t = ([], refl, tt, tt)
  within_known limit (e ∷ es) t = elim (Option-cases (average e)) [
    | inl missing ↦ absurd (t.0 missing)
    | inr (d, known) ↦
        let (fast, rest, kept, all) = within_known limit es t.1 in
        let wider = All-map fast (λ x (i, m). (inr i, m)) kept in
        elim (Bool-cases (leb d limit)) [
          | inl near ↦ (
            e ∷ fast,
            rw (known, rest, near),
            ((inl refl, (d, known, leb→le d limit near)), wider),
            ((λ d' h b. inl refl), All-map es (λ x f d' h b. inr (f d' h b)) all),
          )
          | inr far ↦ (
            fast,
            rw (known, rest, far),
            wider,
            ((λ d' h b. absurd (too_far d limit d' far (same_value known h) b)), all),
          )
        ]
  ]

module _ {E : Type 0} (key : E → List ℕ) where
  min_by_key_from-first :
      (best : E) (es : List E)
      → (lex_ltb (key best) (key (min_by_key_from key best es)) ≡ false)
        × All (λ x. lex_ltb (key x) (key (min_by_key_from key best es)) ≡ false) es
  unfolding min_by_key_from
  min_by_key_from-first best [] = (lex_irrefl (key best), tt)
  min_by_key_from-first best (e ∷ es) =
      let (head, rest) =
        min_by_key_from-first (if lex_ltb (key e) (key best) then e else best) es in
      let r = min_by_key_from key (if lex_ltb (key e) (key best) then e else best) es in
      (
        ground (arith, lex_asymm (key e) (key best), lex_trans (key best) (key e) (key r), head),
        (ground (arith, lex_trans (key e) (key best) (key r), head), rest),
      )

  min_by_key_from-In : (best : E) (es : List E) → In (min_by_key_from key best es) (best ∷ es)
  unfolding min_by_key_from
  min_by_key_from-In best [] = inl refl
  min_by_key_from-In best (e ∷ es) =
      In-pick es (min_by_key_from-In (if lex_ltb (key e) (key best) then e else best) es)
        (either (lex_ltb (key e) (key best)))

module _ {E : Type 0} (average : E → Option ℕ) (key : E → List ℕ) where
  IsBest-of :
      (es fast : List E) (best : E) (least : ℕ)
      → In (some least) (map average es)
      → All (λ x. (d : ℕ) → average x ≡ some d → least ≤ d) es
      → All (λ e. In e es × ((d : ℕ) × (average e ≡ some d) × (d ≤ max_delay_threshold least))) fast
      → All (λ e. (d : ℕ) → average e ≡ some d → d ≤ max_delay_threshold least → In e fast) es
      → In best fast
      → All (λ x. lex_ltb (key x) (key best) ≡ false) fast
      → IsBest average key es best
  unfolding max_delay_threshold
  IsBest-of es fast best least attained smallest kept all among first =
      let (inside, (d, known, near)) = All-In _ fast best kept among in
      record {
        chosen = inside;
        least = least;
        delay = d;
        measured = known;
        attained = attained;
        smallest = smallest;
        close = near;
        first = All-map es (λ x f d' h b. All-In _ fast x first (f d' h b)) all;
      }

  choose :
      (es : List E) (least : ℕ)
      → Timed average es
      → In (some least) (map average es)
      → All (λ x. (d : ℕ) → average x ≡ some d → least ≤ d) es
      → (best : E) × (and_then
            (within average (max_delay_threshold least) es)
            (λ fast. some (min_by_key key fast))
          ≡ some (some best))
        × IsBest average key es best
  unfolding min_by_key
  choose es least t attained smallest =
      let (fast, kept_eq, kept, all) = within_known average (max_delay_threshold least) es t in
      let (e, inside, known) = In-map average (some least) es attained in
      pick fast e kept_eq kept all (All-In _ es e all inside least known (least-le-threshold least))
    where
      pick :
          (fast : List E) (e : E)
          → within average (max_delay_threshold least) es ≡ some fast
          → All
              (λ e. In e es × ((d : ℕ) × (average e ≡ some d) × (d ≤ max_delay_threshold least)))
              fast
          → All (λ e. (d : ℕ) → average e ≡ some d → d ≤ max_delay_threshold least → In e fast) es
          → In e fast
          → (best : E) × (and_then
                (within average (max_delay_threshold least) es)
                (λ fast. some (min_by_key key fast))
              ≡ some (some best))
            × IsBest average key es best
      pick [] e kept_eq kept all i = absurd i
      pick (f ∷ fs) e kept_eq kept all i = (
        min_by_key_from key f fs,
        rw kept_eq,
        IsBest-of es (f ∷ fs) (min_by_key_from key f fs) least attained smallest kept all
            (min_by_key_from-In key f fs) (min_by_key_from-first key f fs),
      )

  -- Where all averages are defined the rule does not panic; it yields nothing exactly if there is
  -- no candidate, and otherwise the best one.
  pub select_lem :
      (es : List E)
      → Timed average es
      → ((es ≡ []) × (select average key es ≡ some none))
        ⊎ ((e : E) × (select average key es ≡ some (some e)) × IsBest average key es e)
  unfolding select averages minimum
  select_lem [] t = inl (refl, refl)
  select_lem (e ∷ es) t =
      let (ds, ds_eq, all, back) = averages_known average (e ∷ es) t in go ds ds_eq all back
    where
      go :
          (ds : List ℕ)
          → averages average (e ∷ es) ≡ some ds
          → All (λ x. (d : ℕ) → average x ≡ some d → In d ds) (e ∷ es)
          → ((d : ℕ) → In d ds → In (some d) (map average (e ∷ es)))
          → (((e ∷ es) ≡ []) × (select average key (e ∷ es) ≡ some none))
            ⊎ ((x : E) × (select average key (e ∷ es) ≡ some (some x))
                × IsBest average key (e ∷ es) x)
      go [] ds_eq all back = elim (Option-cases (average e)) [
        | inl missing ↦ absurd (t.0 missing)
        | inr (d, known) ↦ absurd (all.0 d known)
      ]
      go (m ∷ ms) ds_eq all back =
          let (head, rest) = least_from-le m ms in
          let (best, chosen_eq, is_best) =
            choose (e ∷ es) (least_from m ms) t (back _ (least_from-In m ms)) (
              All-map (e ∷ es)
                (λ x f d h. All-In (λ y. least_from m ms ≤ y) (m ∷ ms) d (head, rest) (f d h))
                all) in
          inr (best, rw (ds_eq, select) chosen_eq, is_best)
