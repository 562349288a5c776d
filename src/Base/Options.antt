-- ===== src/Base/Options.antt =====
-- What a successful result says of the value that is expected.
use mathlib.Core.Path.{◌≡◌, subst, ap}
use mathlib.Core.Option.{Option, none, some}

abbrev unwrap_or {ℓ} : {A : Type ℓ} → A → Option A → A
unwrap_or d none = d
unwrap_or d (some a) = a

pub some_inj {ℓ} : {A : Type ℓ} (a b : A) → some a ≡ some b → a ≡ b
some_inj a b h = ap (unwrap_or a) h

-- A computation `o` that gives `a` gives the expected `b`.
pub some_subst {ℓ κ} :
    {A : Type ℓ} (P : A → Type κ) {o : Option A} (a : A) {b : A}
    → o ≡ some a
    → o ≡ some b
    → P a
    → P b
some_subst P a {b} h k x = subst P (some_inj a b (cc)) x

infixl 5 ◌>>=◌
abbrev pub ◌>>=◌ {ℓ ℓ'} : {A : Type ℓ} {B : Type ℓ'} → Option A → (A → Option B) → Option B
none >>= f = none
some a >>= f = f a
