-- ===== src/Common/Effect.antt =====
-- The outcome of a task's work on a state that it shares: a value, an error that `?` passes on, a
-- panic, or a lock that the task waits for while it holds it itself. What was done before stays.
use pessi_streamer.Base.{◌≡◌, ◌≢◌, refl, ap, inl, inr, List, [], ◌∷◌, In}

pub data Error : Type 0 where
  io_error bincode_error unexpected_packet : Error

pub data Outcome (A : Type 0) : Type 0 where
  ok : A → Outcome A
  err : Error → Outcome A
  panic : Outcome A
  blocked : Outcome A

abbrev pub Task : Type 0 → Type 0 → Type 0
Task S A = S → Outcome A × S

module _ {S A : Type 0} where
  abbrev pub pure : A → Task S A
  pure a s = (ok a, s)

  abbrev pub raise : Error → Task S A
  raise e s = (err e, s)

  abbrev pub stop : Outcome A → Task S A
  stop r s = (r, s)

  abbrev pub gets : (S → A) → Task S A
  gets f s = (ok (f s), s)

abbrev pub update : {S : Type 0} → (S → S) → Task S (Unit {0})
update f s = (ok tt, f s)

module _ {S A B : Type 0} where
  abbrev pub continue : Outcome A → (A → Task S B) → Task S B
  continue (ok a) f s = f a s
  continue (err e) f s = (err e, s)
  continue panic f s = (panic, s)
  continue blocked f s = (blocked, s)

  infixl 10 ◌>>=◌ ◌>>◌
  abbrev pub ◌>>=◌ : Task S A → (A → Task S B) → Task S B
  ◌>>=◌ m f s = let (r, s') = m s in continue r f s'

  abbrev pub ◌>>◌ : Task S A → Task S B → Task S B
  m >> n = m >>= λ _. n

-- `if let Err(e) = m { error!(…) }`
abbrev pub logged : Outcome Unit → Outcome Unit
logged (err e) = ok tt
logged r = r

abbrev pub log_error : {S : Type 0} → Task S Unit → Task S Unit
log_error m s = let (r, s') = m s in (logged r, s')

-- `for x in xs { body(x) }`, where the body may return early by `?`.
abbrev pub for_each : {S A : Type 0} → List A → (A → Task S Unit) → Task S Unit
for_each [] body = pure tt
for_each (x ∷ xs) body = body x >> for_each xs body

-- What holds of the state before, and of every state that the rest leaves, holds after a bind.
pub continue_keeps {ℓ} :
    {S A B : Type 0} (P : S → Type ℓ) (m : Outcome A × S) (f : A → Task S B)
    → P m.1
    → ((a : A) → m.0 ≡ ok a → P (f a m.1).1)
    → P (continue m.0 f m.1).1
continue_keeps P (ok a, s) f h k = k a refl
continue_keeps P (err e, s) f h k = h
continue_keeps P (panic, s) f h k = h
continue_keeps P (blocked, s) f h k = h

-- A loop keeps what each round keeps.
pub for_each_keeps {ℓ} :
    {S A : Type 0} (P : S → Type ℓ) (xs : List A) (body : A → Task S Unit)
    → ((a : A) (s : S) → P s → P (body a s).1)
    → (s : S) → P s
    → P (for_each xs body s).1
for_each_keeps P [] body step s h = h
for_each_keeps P (x ∷ xs) body step s h =
    continue_keeps P (body x s) (λ _. for_each xs body) (step x s h)
      (λ _ _. for_each_keeps P xs body step (body x s).1 (step x s h))

-- A work that did not panic, and left a state with the property `P`.
abbrev pub Sound : {S A : Type 0} → (S → Type 0) → Outcome A × S → Type 0
Sound P m = (m.0 ≢ panic) × P m.1

module _ {S : Type 0} (P : S → Type 0) where
  pub Sound-continue :
      {A B : Type 0} (m : Outcome A × S) (f : A → Task S B)
      → Sound P m
      → ((a : A) (s : S) → P s → Sound P (f a s))
      → Sound P (continue m.0 f m.1)
  Sound-continue (ok a, s) f h k = k a s h.1
  Sound-continue (err e, s) f h k = ((λ p. cc), h.1)
  Sound-continue (panic, s) f h k = absurd (h.0 refl)
  Sound-continue (blocked, s) f h k = ((λ p. cc), h.1)

  pub Sound-logged : (m : Outcome Unit × S) → Sound P m → Sound P (logged m.0, m.1)
  Sound-logged (ok a, s) h = h
  Sound-logged (err e, s) h = ((λ p. cc), h.1)
  Sound-logged (panic, s) h = h
  Sound-logged (blocked, s) h = h

  pub Sound-for_each :
      {A : Type 0} (xs : List A) (body : A → Task S Unit)
      → ((a : A) → In a xs → (s : S) → P s → Sound P (body a s))
      → (s : S) → P s
      → Sound P (for_each xs body s)
  Sound-for_each [] body step s h = ((λ p. cc), h)
  Sound-for_each (x ∷ xs) body step s h =
      Sound-continue (body x s) (λ _. for_each xs body) (step x (inl refl) s h)
        (λ _ t g. Sound-for_each xs body (λ a i. step a (inr i)) t g)

-- The outcome of a work that neither panicked nor waits for a lock of its own.
abbrev pub Calm : {A : Type 0} → Outcome A → Type 0
Calm r = (r ≢ panic) × (r ≢ blocked)

pub Calm-continue :
    {S A B : Type 0} (m : Outcome A × S) (f : A → Task S B)
    → Calm m.0
    → ((a : A) → m.0 ≡ ok a → Calm (f a m.1).0)
    → Calm (continue m.0 f m.1).0
Calm-continue (ok a, s) f h k = k a refl
Calm-continue (err e, s) f h k = ((λ p. cc), λ p. cc)
Calm-continue (panic, s) f h k = absurd (h.0 refl)
Calm-continue (blocked, s) f h k = absurd (h.1 refl)

pub logged-ok : (r : Outcome Unit) → Calm r → logged r ≡ ok tt
logged-ok (ok a) h = refl
logged-ok (err e) h = refl
logged-ok panic h = absurd (h.0 refl)
logged-ok blocked h = absurd (h.1 refl)

-- A loop whose rounds all return a value returns one, and runs them all.
pub for_each-ok :
    {S A : Type 0} (xs : List A) (body : A → Task S Unit)
    → ((a : A) (s : S) → (body a s).0 ≡ ok tt)
    → (s : S) → (for_each xs body s).0 ≡ ok tt
for_each-ok [] body all s = refl
for_each-ok (x ∷ xs) body all s = rw (all x s) (for_each-ok xs body all (body x s).1)

pub bind-ok :
    {S A B : Type 0} (m : Task S A) (f : A → Task S B) (s : S) {a : A} {t : S}
    → m s ≡ (ok a, t)
    → (m >>= f) s ≡ f a t
bind-ok m f s e = ap (λ r. continue r.0 f r.1) e
