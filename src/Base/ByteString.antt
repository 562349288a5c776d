-- ===== src/Base/ByteString.antt =====
-- `std::string` as the list of its bytes, and `operator==` on it.
use Prim.Native.Nat.{ℕ}
use mathlib.Core.Path.{◌≡◌, refl, ap₂}
use mathlib.Core.Logic.{◌≢◌, ◌↔◌, ◌⊎◌, inl, inr}
use mathlib.Core.Bool.{Bool, true, false, ◌&&◌}
use mathlib.Core.List.{List, [], ◌∷◌}
use native.Mathlib.Omega.{arith}
use distributed_monitor.Base.Tests.{◌==◌, ==_iff, ==_refl, Bool-cases, &&-true}

abbrev pub Bytes : Type 0
Bytes = List ℕ

unfoldable pub bytes_eq : Bytes → Bytes → Bool
bytes_eq [] [] = true
bytes_eq [] (y ∷ ys) = false
bytes_eq (x ∷ xs) [] = false
bytes_eq (x ∷ xs) (y ∷ ys) = x == y && bytes_eq xs ys

pub bytes_eq_refl : (s : Bytes) → bytes_eq s s ≡ true
unfolding bytes_eq
bytes_eq_refl [] = refl
bytes_eq_refl (x ∷ s) = ground (arith, ==_refl x, bytes_eq_refl s)

bytes_eq_sound : (s t : Bytes) → bytes_eq s t ≡ true → s ≡ t
unfolding bytes_eq
bytes_eq_sound [] [] h = refl
bytes_eq_sound [] (y ∷ t) h = cc
bytes_eq_sound (x ∷ s) [] h = cc
bytes_eq_sound (x ∷ s) (y ∷ t) h =
    let both = &&-true (x == y) (bytes_eq s t) h in
    ap₂ ◌∷◌ ((==_iff x y).0 both.0) (bytes_eq_sound s t both.1)

pub bytes_eq_iff : (s t : Bytes) → (bytes_eq s t ≡ true) ↔ (s ≡ t)
bytes_eq_iff s t = (bytes_eq_sound s t, λ e. rw e (bytes_eq_refl t))

pub bytes_eq-cases :
    (s t : Bytes) → ((bytes_eq s t ≡ true) × (s ≡ t)) ⊎ ((bytes_eq s t ≡ false) × (s ≢ t))
bytes_eq-cases s t = elim (Bool-cases (bytes_eq s t)) [
  | inl e ↦ inl (e, bytes_eq_sound s t e)
  | inr e ↦ inr (e, λ p. absurd (ground (arith, (bytes_eq_iff s t).1 p)))
]
