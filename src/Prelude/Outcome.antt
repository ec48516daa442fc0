-- ===== src/Prelude/Outcome.antt =====
-- How a C function of the repository ends (include/error.h): it returns, it returns a negative
-- error code, or it halts the machine by `panic`. A state is passed through, also on an error:
-- what was written before an early return stays written.
use mathlib.Core.Bool.{Bool}
use mathlib.Core.Path.{◌≡◌, refl}
use buaa_os.Prelude.Tests.{if◌then◌else◌}

-- The error codes, without their sign.
pub data Errno : Type 0 where
  e_unspecified e_bad_env e_inval e_no_mem e_no_sys e_no_free_env e_ipc_not_recv : Errno
  e_no_disk e_max_open e_not_found e_bad_path e_file_exists e_not_exec : Errno

pub data Outcome {ℓ κ} (S : Type ℓ) (A : Type κ) : Type (ℓ ⊔ κ) where
  done : A → S → Outcome S A
  fail : Errno → S → Outcome S A
  panic : Outcome S A

abbrev pub Cmd {ℓ κ} : Type ℓ → Type κ → Type (ℓ ⊔ κ)
Cmd S A = S → Outcome S A

module _ {ℓ κ} {S : Type ℓ} {A : Type κ} where
  abbrev pub pure : A → Cmd S A
  pure a s = done a s

  abbrev pub throw : Errno → Cmd S A
  throw e s = fail e s

  abbrev pub halt : Cmd S A
  halt s = panic

  abbrev pub and_then {ι} : {B : Type ι} → Outcome S A → (A → Cmd S B) → Outcome S B
  and_then (done a s) f = f a s
  and_then (fail e s) f = fail e s
  and_then panic f = panic

  -- `try`, or the test `if (r < 0) return r` after a call.
  infixl 5 ◌>>=◌ ◌>>◌
  abbrev pub ◌>>=◌ {ι} : {B : Type ι} → Cmd S A → (A → Cmd S B) → Cmd S B
  ◌>>=◌ m f s = and_then (m s) f

  abbrev pub ◌>>◌ {ι} : {B : Type ι} → Cmd S A → Cmd S B → Cmd S B
  ◌>>◌ m n s = and_then (m s) (λ _. n)

  abbrev pub reads : (S → A) → Cmd S A
  reads f s = done (f s) s

  abbrev pub failing : Outcome S A → Errno → Outcome S A
  failing (done a s) e = done a s
  failing (fail _ s) e = fail e s
  failing panic e = panic

  -- `if (f() < 0) return e`: any error becomes `e`.
  abbrev pub or_error : Cmd S A → Errno → Cmd S A
  or_error m e s = failing (m s) e

module _ {ℓ} {S : Type ℓ} where
  abbrev pub modify : (S → S) → Cmd S (Unit {0})
  modify f s = done tt (f s)

  abbrev pub assert : Bool → Cmd S (Unit {0})
  assert b s = if b then done tt s else panic

  abbrev pub skip : Cmd S (Unit {0})
  skip s = done tt s

  abbrev pub ignoring {κ} : {A : Type κ} → Outcome S A → Outcome S (Unit {0})
  ignoring (done a s) = done tt s
  ignoring (fail e s) = done tt s
  ignoring panic = panic

  -- A call whose result is dropped.
  abbrev pub ignore {κ} : {A : Type κ} → Cmd S A → Cmd S (Unit {0})
  ignore m s = ignoring (m s)

-- A command of a part of the state, run on the whole.
module _ {ℓ κ} {S : Type ℓ} {T : Type κ} where
  abbrev pub lifting {ι} : {A : Type ι} → (S → T) → Outcome S A → Outcome T A
  lifting back (done a s) = done a (back s)
  lifting back (fail e s) = fail e (back s)
  lifting back panic = panic

  abbrev pub within {ι} : {A : Type ι} → (T → S) → (T → S → T) → Cmd S A → Cmd T A
  within part put m t = lifting (put t) (m (part t))

-- What holds of the result: `P` of a return, `Q` of an error, and no panic.
abbrev pub Ends {ℓ κ} :
    {S : Type ℓ} {A : Type κ} → (A → S → Type 0) → (Errno → S → Type 0) → Outcome S A → Type 0
Ends P Q (done a s) = P a s
Ends P Q (fail e s) = Q e s
Ends P Q panic = ⊥

-- It returns, and `P` holds.
abbrev pub Returns {ℓ κ} : {S : Type ℓ} {A : Type κ} → (A → S → Type 0) → Outcome S A → Type 0
Returns P = Ends P (λ e s. ⊥)

-- If it returns, `P` holds.
abbrev pub IfReturns {ℓ κ} : {S : Type ℓ} {A : Type κ} → (A → S → Type 0) → Outcome S A → Type 0
IfReturns P (done a s) = P a s
IfReturns P (fail e s) = Unit
IfReturns P panic = Unit

pub IfReturns-bind {ℓ κ ι} :
    {S : Type ℓ} {A : Type κ} {B : Type ι} (P : A → S → Type 0) (P' : B → S → Type 0)
    (r : Outcome S A) (f : A → Cmd S B)
    → IfReturns P r
    → ((a : A) (s : S) → P a s → IfReturns P' (f a s))
    → IfReturns P' (and_then r f)
IfReturns-bind P P' (done a s) f h g = g a s h
IfReturns-bind P P' (fail e s) f h g = tt
IfReturns-bind P P' panic f h g = tt

pub IfReturns-mono {ℓ κ} :
    {S : Type ℓ} {A : Type κ} (P P' : A → S → Type 0) (r : Outcome S A)
    → IfReturns P r
    → ((a : A) (s : S) → P a s → P' a s)
    → IfReturns P' r
IfReturns-mono P P' (done a s) h f = f a s h
IfReturns-mono P P' (fail e s) h f = tt
IfReturns-mono P P' panic h f = tt

-- What holds of a return, and of an error, if it does not panic.
abbrev pub IfEnds {ℓ κ} :
    {S : Type ℓ} {A : Type κ} → (A → S → Type 0) → (Errno → S → Type 0) → Outcome S A → Type 0
IfEnds P Q (done a s) = P a s
IfEnds P Q (fail e s) = Q e s
IfEnds P Q panic = Unit

pub IfEnds-bind {ℓ κ ι} :
    {S : Type ℓ} {A : Type κ} {B : Type ι} (P : A → S → Type 0) (P' : B → S → Type 0)
    (Q : Errno → S → Type 0) (r : Outcome S A) (f : A → Cmd S B)
    → IfEnds P Q r
    → ((a : A) (s : S) → P a s → IfEnds P' Q (f a s))
    → IfEnds P' Q (and_then r f)
IfEnds-bind P P' Q (done a s) f h g = g a s h
IfEnds-bind P P' Q (fail e s) f h g = h
IfEnds-bind P P' Q panic f h g = tt

pub IfEnds-IfReturns {ℓ κ} :
    {S : Type ℓ} {A : Type κ} (P : A → S → Type 0) (Q : Errno → S → Type 0) (r : Outcome S A)
    → IfEnds P Q r
    → IfReturns P r
IfEnds-IfReturns P Q (done a s) h = h
IfEnds-IfReturns P Q (fail e s) h = tt
IfEnds-IfReturns P Q panic h = tt

pub IfEnds-both {ℓ κ} :
    {S : Type ℓ} {A : Type κ} (P P' : A → S → Type 0) (Q Q' : Errno → S → Type 0) (r : Outcome S A)
    → IfEnds P Q r
    → ((a : A) (s : S) → P a s → P' a s)
    → ((e : Errno) (s : S) → Q e s → Q' e s)
    → IfEnds P' Q' r
IfEnds-both P P' Q Q' (done a s) h f g = f a s h
IfEnds-both P P' Q Q' (fail e s) h f g = g e s h
IfEnds-both P P' Q Q' panic h f g = tt

pub IfEnds-mono {ℓ κ} :
    {S : Type ℓ} {A : Type κ} (P P' : A → S → Type 0) (r : Outcome S A)
    → IfEnds P (λ e s. ⊥) r
    → ((a : A) (s : S) → P a s → P' a s)
    → IfEnds P' (λ e s. ⊥) r
IfEnds-mono P P' r h f = IfEnds-both P P' (λ e s. ⊥) (λ e s. ⊥) r h f (λ e s z. z)

-- What never fails may fail in any way.
pub IfEnds-weaken {ℓ κ} :
    {S : Type ℓ} {A : Type κ} (P : A → S → Type 0) (Q : Errno → S → Type 0) (r : Outcome S A)
    → IfEnds P (λ e s. ⊥) r
    → IfEnds P Q r
IfEnds-weaken P Q r h = IfEnds-both P P (λ e s. ⊥) Q r h (λ a s p. p) (λ e s z. absurd z)

pub IfEnds-ignoring {ℓ κ} :
    {S : Type ℓ} {A : Type κ} (P : S → Type 0) (r : Outcome S A)
    → IfEnds (λ _ s. P s) (λ _ s. P s) r
    → IfReturns (λ _ s. P s) (ignoring r)
IfEnds-ignoring P (done a s) h = h
IfEnds-ignoring P (fail e s) h = h
IfEnds-ignoring P panic h = tt

pub Ends-bind {ℓ κ ι} :
    {S : Type ℓ} {A : Type κ} {B : Type ι} (P : A → S → Type 0) (P' : B → S → Type 0)
    (Q : Errno → S → Type 0) (r : Outcome S A) (f : A → Cmd S B)
    → Ends P Q r
    → ((a : A) (s : S) → P a s → Ends P' Q (f a s))
    → Ends P' Q (and_then r f)
Ends-bind P P' Q (done a s) f h g = g a s h
Ends-bind P P' Q (fail e s) f h g = h
Ends-bind P P' Q panic f h g = h

pub Returns-Ends {ℓ κ ι} :
    {S : Type ℓ} {A : Type κ} {B : Type ι} (P : A → S → Type 0) (P' : B → S → Type 0)
    (Q : Errno → S → Type 0) (r : Outcome S A) (f : A → Cmd S B)
    → Returns P r
    → ((a : A) (s : S) → P a s → Ends P' Q (f a s))
    → Ends P' Q (and_then r f)
Returns-Ends P P' Q (done a s) f h g = g a s h
Returns-Ends P P' Q (fail e s) f h g = absurd h
Returns-Ends P P' Q panic f h g = h

pub Ends-both {ℓ κ} :
    {S : Type ℓ} {A : Type κ} (P P' : A → S → Type 0) (Q Q' : Errno → S → Type 0) (r : Outcome S A)
    → Ends P Q r
    → ((a : A) (s : S) → P a s → P' a s)
    → ((e : Errno) (s : S) → Q e s → Q' e s)
    → Ends P' Q' r
Ends-both P P' Q Q' (done a s) h f g = f a s h
Ends-both P P' Q Q' (fail e s) h f g = g e s h
Ends-both P P' Q Q' panic h f g = h

pub Returns-mono {ℓ κ} :
    {S : Type ℓ} {A : Type κ} (P P' : A → S → Type 0) (r : Outcome S A)
    → Returns P r
    → ((a : A) (s : S) → P a s → P' a s)
    → Returns P' r
Returns-mono P P' (done a s) h f = f a s h
Returns-mono P P' (fail e s) h f = h
Returns-mono P P' panic h f = h

pub Returns-bind {ℓ κ ι} :
    {S : Type ℓ} {A : Type κ} {B : Type ι} (P : A → S → Type 0) (P' : B → S → Type 0)
    (r : Outcome S A) (f : A → Cmd S B)
    → Returns P r
    → ((a : A) (s : S) → P a s → Returns P' (f a s))
    → Returns P' (and_then r f)
Returns-bind P P' (done a s) f h g = g a s h
Returns-bind P P' (fail e s) f h g = h
Returns-bind P P' panic f h g = h

pub Returns-IfEnds {ℓ κ} :
    {S : Type ℓ} {A : Type κ} (P : A → S → Type 0) (Q : Errno → S → Type 0) (r : Outcome S A)
    → Returns P r
    → IfEnds P Q r
Returns-IfEnds P Q (done a s) h = h
Returns-IfEnds P Q (fail e s) h = absurd h
Returns-IfEnds P Q panic h = tt

pub Returns-ignoring {ℓ κ} :
    {S : Type ℓ} {A : Type κ} (P : S → Type 0) (r : Outcome S A)
    → Returns (λ _ s. P s) r
    → Returns (λ _ s. P s) (ignoring r)
Returns-ignoring P (done a s) h = h
Returns-ignoring P (fail e s) h = absurd h
Returns-ignoring P panic h = h

-- What holds if it returns, of a run that returns.
pub Returns-and {ℓ κ} :
    {S : Type ℓ} {A : Type κ} (P Q : A → S → Type 0) (r : Outcome S A)
    → IfReturns P r
    → Returns Q r
    → Returns P r
Returns-and P Q (done a s) h k = h
Returns-and P Q (fail e s) h k = k
Returns-and P Q panic h k = k

-- A run that returns, with its result and its state.
pub Returns-value {ℓ κ} :
    {S : Type ℓ} {A : Type κ} (P : A → S → Type 0) (r : Outcome S A)
    → Returns P r
    → (a : A) × (s : S) × (r ≡ done a s) × P a s
Returns-value P (done a s) h = (a, s, refl, h)
Returns-value P (fail e s) h = absurd h
Returns-value P panic h = absurd h

-- What a command of a part does to the whole.
pub lift-Ends {ℓ κ ι} :
    {S : Type ℓ} {T : Type κ} {A : Type ι} (P : A → S → Type 0) (Q : Errno → S → Type 0)
    (P' : A → T → Type 0) (Q' : Errno → T → Type 0) (back : S → T) (r : Outcome S A)
    → Ends P Q r
    → ((a : A) (s : S) → P a s → P' a (back s))
    → ((e : Errno) (s : S) → Q e s → Q' e (back s))
    → Ends P' Q' (lifting back r)
lift-Ends P Q P' Q' back (done a s) h f g = f a s h
lift-Ends P Q P' Q' back (fail e s) h f g = g e s h
lift-Ends P Q P' Q' back panic h f g = h
