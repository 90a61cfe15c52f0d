-- ===== src/Start/Select.antt =====
-- The `select!` in which `main` waits (node/src/main.rs, server/src/main.rs): the program goes on
-- until one of the tasks that it spawned ends. `ends` also tells which outcomes leave a task waiting
-- for ever; what a node does without that task is not followed.
use pessi_streamer.Base.{
  ◌≡◌, ◌⊎◌, refl, ap, inl, inr, Bool, true, false, List, [], ◌∷◌, ◌++◌, All, Bool-cases,
  if◌then◌else◌,
}
use pessi_streamer.Common.Packet.{SystemTime}
use pessi_streamer.Common.Effect.{Outcome, ok, err, panic, blocked, Task}

abbrev pub is_panic : Outcome Unit → Bool
is_panic (ok a) = false
is_panic (err e) = false
is_panic panic = true
is_panic blocked = false

abbrev pub is_blocked : Outcome Unit → Bool
is_blocked (ok a) = false
is_blocked (err e) = false
is_blocked panic = false
is_blocked blocked = true

-- A task that passes its errors on ends by them too.
abbrev pub is_end : Outcome Unit → Bool
is_end (ok a) = false
is_end (err e) = true
is_end panic = true
is_end blocked = false

module _ {S E : Type 0} (react : SystemTime → E → Task S Unit)
    (ends : E → Outcome Unit → Bool) where
  -- What happens until a task ends, or waits for ever: whether all still run, and the state.
  unfoldable pub select_loop : List (SystemTime × E) → S → Bool × S
  select_loop [] s = (true, s)
  select_loop ((now, e) ∷ es) s =
      let (r, t) = react now e s in
      let rest = select_loop es t in if ends e r then (false, t) else rest

  -- A task has ended by the event `e`, at the state `t`.
  pub record HasEnded (P : S → Type 0) (Q : E → Type 0) (es : List (SystemTime × E)) (s : S)
      : Type 0 where
    pub before : List (SystemTime × E)
    pub after : List (SystemTime × E)
    pub now : SystemTime
    pub event : E
    pub state : S
    pub events : es ≡ before ++ (now, event) ∷ after
    pub went : select_loop before s ≡ (true, state)
    pub valid : P state
    pub real : Q event
    pub ended : ends event (react now event state).0 ≡ true

  -- The loop goes on through all events, or one of them ends a task.
  pub select_loop_lem :
      (P : S → Type 0) (Q : E → Type 0)
      → ((now : SystemTime) (e : E) (s : S) → Q e → P s → P (react now e s).1)
      → (es : List (SystemTime × E)) (s : S) → All (λ e. Q e.1) es
      → P s
      → P (select_loop es s).1 × (((select_loop es s).0 ≡ true) ⊎ HasEnded P Q es s)
  unfolding select_loop
  select_loop_lem P Q keeps [] s real valid = (valid, inl refl)
  select_loop_lem P Q keeps ((now, e) ∷ es) s real valid =
      elim (Bool-cases (ends e (react now e s).0)) [
        | inl over ↦ rw over (
          keeps now e s real.0 valid,
          inr (record {
            before = [];
            after = es;
            now = now;
            event = e;
            state = s;
            events = refl;
            went = refl;
            valid = valid;
            real = real.0;
            ended = over;
          }),
        )
        | inr goes ↦
            let (kept, rest) =
              select_loop_lem P Q keeps es (react now e s).1 real.1 (keeps now e s real.0 valid) in
            rw goes (
              kept,
              elim rest [
                | inl all ↦ inl all
                | inr h ↦ inr (record {
                  before = (now, e) ∷ h.before;
                  after = h.after;
                  now = h.now;
                  event = h.event;
                  state = h.state;
                  events = ap (λ l. (now, e) ∷ l) h.events;
                  went = rw goes h.went;
                  valid = h.valid;
                  real = h.real;
                  ended = h.ended;
                })
              ],
            )
      ]
