-- ===== src/Prelude/Exec.antt =====
-- Methods that change a state and may raise. What was written before a raise stays written, so
-- the state comes back beside the error too; a transaction undoes that.
use mathlib.Core.Path.{◌≡◌, refl}
use mathlib.Core.Logic.{◌⊎◌, inl, inr}
use mathlib.Core.Option.{Option, none, some}

pub data Result (E A : Type 0) : Type 0 where
  ok : A → Result E A
  err : E → Result E A

abbrev pub bind_result : {E A B : Type 0} → Result E A → (A → Result E B) → Result E B
bind_result (ok a) f = f a
bind_result (err e) f = err e

abbrev pub Exec : Type 0 → Type 0 → Type 0 → Type 0
Exec E S A = S → Result E A × S

abbrev pub resume : {E S A B : Type 0} → Result E A × S → (A → Exec E S B) → Result E B × S
resume (ok a, s) f = f a s
resume (err e, s) f = (err e, s)

infixl 5 ◌>>=◌ ◌>>◌
abbrev pub ◌>>=◌ : {E S A B : Type 0} → Exec E S A → (A → Exec E S B) → Exec E S B
◌>>=◌ m f s = resume (m s) f

abbrev pub ◌>>◌ : {E S A B : Type 0} → Exec E S A → Exec E S B → Exec E S B
m >> n = m >>= λ _. n

abbrev pub pure : {E S A : Type 0} → A → Exec E S A
pure a s = (ok a, s)

abbrev pub raise : {E S A : Type 0} → E → Exec E S A
raise e s = (err e, s)

abbrev pub lift : {E S A : Type 0} → Result E A → Exec E S A
lift r s = (r, s)

-- a value that is there, or the error that is raised without it
abbrev pub or_error : {E A : Type 0} → E → Option A → Result E A
or_error e none = err e
or_error e (some a) = ok a

abbrev pub gets : {E S A : Type 0} → (S → A) → Exec E S A
gets f s = (ok (f s), s)

abbrev pub modify : {E S : Type 0} → (S → S) → Exec E S (Unit {0})
modify f s = (ok tt, f s)

-- `BEGIN IMMEDIATE`, the body, then `COMMIT`, or `ROLLBACK` and the exception once more.
abbrev pub settle : {E S A : Type 0} → S → Result E A × S → Result E A × S
settle s (ok a, s') = (ok a, s')
settle s (err e, s') = (err e, s)

abbrev pub transaction : {E S A : Type 0} → Exec E S A → Exec E S A
transaction m s = settle s (m s)

pub or_error-ok : {E A : Type 0} (e : E) (o : Option A) (a : A) → or_error e o ≡ ok a → o ≡ some a
or_error-ok e none a h = absurd (cc h)
or_error-ok e (some b) a h = cc h

pub Result-cases :
    {E A : Type 0} (r : Result E A) → ((a : A) × (r ≡ ok a)) ⊎ ((e : E) × (r ≡ err e))
Result-cases (ok a) = inl (a, refl)
Result-cases (err e) = inr (e, refl)

-- What holds of the value that a method returns; nothing if it raises.
abbrev pub Yields : {E S A : Type 0} → Result E A × S → (A → Type 0) → Type 0
Yields (ok a, s) P = P a
Yields (err e, s) P = Unit

module _ {E S A : Type 0} where
  pub Yields-bind :
      {B : Type 0} (x : Result E A × S) (k : A → Exec E S B) (P : B → Type 0)
      → ((a : A) (s : S) → x ≡ (ok a, s) → Yields (k a s) P)
      → Yields (resume x k) P
  Yields-bind (ok a, s) k P h = h a s refl
  Yields-bind (err e, s) k P h = tt

  pub Yields-at :
      (x : Result E A × S) (P : A → Type 0) (a : A) (s : S) → Yields x P → x ≡ (ok a, s) → P a
  Yields-at x P a s h e = rw e at h

  pub Yields-weaken :
      (x : Result E A × S) (P Q : A → Type 0) → ((a : A) → P a → Q a) → Yields x P → Yields x Q
  Yields-weaken (ok a, s) P Q f h = f a h
  Yields-weaken (err e, s) P Q f h = tt

  -- what holds of the state at the end of two actions, if the first one keeps it for the second
  pub Ends-bind :
      {B : Type 0} (x : Result E A × S) (k : A → Exec E S B) (P : S → Type 0)
      → P x.1
      → ((a : A) (s : S) → x ≡ (ok a, s) → P s → P (k a s).1)
      → P (resume x k).1
  Ends-bind (ok a, s) k P h f = f a s refl h
  Ends-bind (err e, s) k P h f = h

  pub Ends-settle : (s : S) (x : Result E A × S) (P : S → Type 0) → P s → P x.1 → P (settle s x).1
  Ends-settle s (ok a, s') P h h' = h'
  Ends-settle s (err e, s') P h h' = h

  pub Ends-lift :
      {B : Type 0} (r : Result E A) (k : A → Exec E S B) (s : S) (P : S → Type 0)
      → P s
      → ((a : A) → r ≡ ok a → P (k a s).1)
      → P (resume (lift r s) k).1
  Ends-lift (ok a) k s P h f = f a refl
  Ends-lift (err e) k s P h f = h

  -- Both actions return, if the two of them do.
  pub resume-ok :
      {B : Type 0} (x : Result E A × S) (k : A → Exec E S B) (b : B) (t : S)
      → resume x k ≡ (ok b, t)
      → (a : A) × (s : S) × (x ≡ (ok a, s)) × (k a s ≡ (ok b, t))
  resume-ok (ok a, s) k b t h = (a, s, refl, h)
  resume-ok (err e, s) k b t h = absurd (cc h)
