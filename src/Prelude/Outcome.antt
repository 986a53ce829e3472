-- ===== src/Prelude/Outcome.antt =====
-- `YS__errmsg` prints a message and ends the simulation (sim_main/util.c), and an access outside an
-- array has no defined result: an operation that can do either returns `fatal` in its place.
use mathlib.Core.Option.{Option, none, some}

pub data Checked {ℓ} (A : Type ℓ) : Type ℓ where
  ok : A → Checked A
  fatal : Checked A

infixl 5 ◌>>=◌
abbrev pub ◌>>=◌ {ℓ κ} : {A : Type ℓ} {B : Type κ} → Checked A → (A → Checked B) → Checked B
ok a >>= f = f a
fatal >>= f = fatal

-- A dereferenced pointer or an array element.
abbrev pub deref {ℓ} : {A : Type ℓ} → Option A → Checked A
deref none = fatal
deref (some a) = ok a
