-- ===== src/Exec.antt =====
-- Code that changes a state and may throw. What was written before a throw stays written, so the
-- state comes back beside the error too.
use pm2manager.Common.{◌≡◌, refl, ◌∙◌, Option, none, some, Bool, true, false}
use pm2manager.Errors.{Failure, unexpected, app, AppError}

pub data Result {ℓ} (A : Type ℓ) : Type ℓ where
  ok : A → Result A
  err : Failure → Result A

abbrev pub Exec {ℓ} : Type ℓ → Type ℓ → Type ℓ
Exec S A = S → Result A × S

module _ {ℓ} {S A : Type ℓ} where
  abbrev pub pure : A → Exec S A
  pure a s = (ok a, s)

  abbrev pub fail : Failure → Exec S A
  fail e s = (err e, s)

  abbrev pub throw : AppError → Exec S A
  throw e s = (err (app e), s)

  abbrev pub lift : Result A → Exec S A
  lift r s = (r, s)

  abbrev pub gets : (S → A) → Exec S A
  gets f s = (ok (f s), s)

  -- A value that must be there: reading a field of `undefined` throws.
  abbrev pub required : Option A → Exec S A
  required none = fail (unexpected "TypeError")
  required (some a) = pure a

abbrev pub modify {ℓ} : {S : Type ℓ} → (S → S) → Exec S (Unit {ℓ})
modify f s = (ok tt, f s)

module _ {ℓ} {S A B : Type ℓ} where
  abbrev pub continue : Result A → (A → Exec S B) → S → Result B × S
  continue (ok a) f s = f a s
  continue (err e) f s = (err e, s)

  infixl 5 ◌>>=◌ ◌>>◌
  abbrev pub ◌>>=◌ : Exec S A → (A → Exec S B) → Exec S B
  ◌>>=◌ m f s = continue (m s).0 f (m s).1

  abbrev pub ◌>>◌ : Exec S A → Exec S B → Exec S B
  m >> n = m >>= λ _. n

module _ {ℓ} {S A : Type ℓ} where
  -- `try { m } catch (e) { h(e) }`
  abbrev pub handle : Result A → (Failure → Exec S A) → S → Result A × S
  handle (ok a) h s = (ok a, s)
  handle (err e) h s = h e s

  abbrev pub try_catch : Exec S A → (Failure → Exec S A) → Exec S A
  try_catch m h s = handle (m s).0 h (m s).1

  -- `cond ? m : n`, of which one is run
  abbrev pub when : Bool → Exec S A → Exec S A → Exec S A
  when true m n = m
  when false m n = n

-- An action on a part of the state, such as one table of the database.
abbrev pub focus {ℓ} : {S T A : Type ℓ} → (S → T) → (T → S → S) → Exec T A → Exec S A
focus get put m s = ((m (get s)).0, put (m (get s)).1 s)

-- A rest that leaves a view of the state alone.
module _ {ℓ} {S A B T : Type ℓ} (view : S → T) where
  frame-continue :
      (r : Result A) (f : A → Exec S B) (s : S)
      → ((a : A) (s' : S) → view (f a s').1 ≡ view s')
      → view (continue r f s).1 ≡ view s
  frame-continue (ok a) f s h = h a s
  frame-continue (err e) f s h = refl

  pub frame-bind :
      (m : Exec S A) (f : A → Exec S B) (s : S)
      → ((a : A) (s' : S) → view (f a s').1 ≡ view s')
      → view ((m >>= f) s).1 ≡ view (m s).1
  frame-bind m f s h = frame-continue (m s).0 f (m s).1 h

-- What holds of both branches of a test holds of the test.
pub when_cases {ℓ κ} :
    {S A : Type ℓ} (P : Result A × S → Type κ) (b : Bool) (m n : Exec S A) (s : S)
    → (b ≡ true → P (m s))
    → (b ≡ false → P (n s))
    → P (when b m n s)
when_cases P true m n s h k = h refl
when_cases P false m n s h k = k refl

-- An action that leaves a view of the state alone.
abbrev pub Frames {ℓ} : {S A T : Type ℓ} → (S → T) → Exec S A → Type ℓ
Frames {S} view m = (s : S) → view (m s).1 ≡ view s

module _ {ℓ} {S A B T : Type ℓ} (view : S → T) where
  pub Frames-bind :
      (m : Exec S A) (f : A → Exec S B)
      → Frames view m
      → ((a : A) → Frames view (f a))
      → Frames view (m >>= f)
  Frames-bind m f h k s = frame-bind view m f s k ∙ h s

module _ {ℓ} {S A T : Type ℓ} (view : S → T) where
  pub Frames-when :
      (b : Bool) (m n : Exec S A) → Frames view m → Frames view n → Frames view (when b m n)
  Frames-when true m n h k = h
  Frames-when false m n h k = k

-- What holds of the state's view where `m` throws, and after the rest where it does not.
module _ {ℓ κ} {S A B T : Type ℓ} (view : S → T) (Q : T → Type κ) where
  continue_view :
      (r : Result A) (f : A → Exec S B) (s : S)
      → Q (view s)
      → ((a : A) → Q (view (f a s).1))
      → Q (view (continue r f s).1)
  continue_view (ok a) f s h k = k a
  continue_view (err e) f s h k = h

  pub bind_view :
      (m : Exec S A) (f : A → Exec S B) (s : S)
      → Q (view (m s).1)
      → ((a : A) → Q (view (f a (m s).1).1))
      → Q (view ((m >>= f) s).1)
  bind_view m f s h k = continue_view (m s).0 f (m s).1 h k

-- What is thrown, if something is, satisfies `P`.
abbrev pub ErrorsIn {ℓ κ} : {A : Type ℓ} → (Failure → Type κ) → Result A → Type κ
ErrorsIn P (ok a) = Unit
ErrorsIn P (err e) = P e

module _ {ℓ κ} {S A B : Type ℓ} (P : Failure → Type κ) where
  ErrorsIn-continue :
      (r : Result A) (f : A → Exec S B) (s : S)
      → ErrorsIn P r
      → ((a : A) → ErrorsIn P (f a s).0)
      → ErrorsIn P (continue r f s).0
  ErrorsIn-continue (ok a) f s h k = k a
  ErrorsIn-continue (err e) f s h k = h

  pub ErrorsIn-bind :
      (m : Exec S A) (f : A → Exec S B) (s : S)
      → ErrorsIn P (m s).0
      → ((a : A) → ErrorsIn P (f a (m s).1).0)
      → ErrorsIn P ((m >>= f) s).0
  ErrorsIn-bind m f s h k = ErrorsIn-continue (m s).0 f (m s).1 h k

module _ {ℓ κ} {S A : Type ℓ} (P : Failure → Type κ) where
  ErrorsIn-handle :
      (r : Result A) (h : Failure → Exec S A) (s : S)
      → ((e : Failure) → ErrorsIn P (h e s).0)
      → ErrorsIn P (handle r h s).0
  ErrorsIn-handle (ok a) h s k = tt
  ErrorsIn-handle (err e) h s k = k e

  pub ErrorsIn-try_catch :
      (m : Exec S A) (h : Failure → Exec S A) (s : S)
      → ((e : Failure) → ErrorsIn P (h e (m s).1).0)
      → ErrorsIn P (try_catch m h s).0
  ErrorsIn-try_catch m h s k = ErrorsIn-handle (m s).0 h (m s).1 k

-- Sequencing is associative.
module _ {ℓ} {S A B C : Type ℓ} where
  continue_assoc :
      (r : Result A) (f : A → Exec S B) (k : B → Exec S C) (s : S)
      → continue (continue r f s).0 k (continue r f s).1 ≡ continue r (λ a. f a >>= k) s
  continue_assoc (ok a) f k s = refl
  continue_assoc (err e) f k s = refl

  pub bind_assoc :
      (m : Exec S A) (f : A → Exec S B) (k : B → Exec S C) (s : S)
      → ((m >>= f) >>= k) s ≡ (m >>= (λ a. f a >>= k)) s
  bind_assoc m f k s = continue_assoc (m s).0 f k (m s).1
