-- ===== src/Common/Options.antt =====
-- What holds of the result of a computation that may fail, if there is one.
use Prim.{Unit}
use mathlib.Core.Option.{Option, none, some}

abbrev pub OnSome {ℓ m} : {A : Type ℓ} → (A → Type m) → Option A → Type m
OnSome P none = Unit
OnSome P (some a) = P a

-- To split on a result of which `R` is known.
pub option_both {ℓ κ m n} :
    {A : Type ℓ} {B : Type κ} (P : B → Type m) (R : A → Type n) (o : Option A) (x : B) (f : A → B)
    → OnSome R o
    → P x
    → ((a : A) → R a → P (f a))
    → P (elim o [ none ↦ x | some a ↦ f a ])
option_both P R none x f r p q = p
option_both P R (some a) x f r p q = q a r

pub option_any {ℓ κ m} :
    {A : Type ℓ} {B : Type κ} (P : B → Type m) (o : Option A) (x : B) (f : A → B)
    → P x
    → ((a : A) → P (f a))
    → P (elim o [ none ↦ x | some a ↦ f a ])
option_any P none x f p q = p
option_any P (some a) x f p q = q a
