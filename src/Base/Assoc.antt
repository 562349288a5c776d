-- ===== src/Base/Assoc.antt =====
-- `std::map` and `std::unordered_map` with string keys, as association lists.
use mathlib.Core.Path.{◌≡◌, refl}
use mathlib.Core.Option.{Option, none, some}
use mathlib.Core.List.{List, [], ◌∷◌}
use native.Mathlib.Omega.{arith}
use distributed_monitor.Base.Tests.{if◌then◌else◌}
use distributed_monitor.Base.ByteString.{Bytes, bytes_eq, bytes_eq_iff}

abbrev pub Assoc {ℓ} : Type ℓ → Type ℓ
Assoc V = List (Bytes × V)

module _ {ℓ} {V : Type ℓ} where
  -- `find`: the value of a key, if the key is there.
  unfoldable pub find : Bytes → Assoc V → Option V
  find k [] = none
  find k ((j, v) ∷ m) = if bytes_eq j k then some v else find k m

  -- `m[k] = v`
  unfoldable pub assign : Bytes → V → Assoc V → Assoc V
  assign k v [] = (k, v) ∷ []
  assign k v ((j, w) ∷ m) = if bytes_eq j k then (k, v) ∷ m else (j, w) ∷ assign k v m

  -- `m.erase(k)`
  unfoldable pub erase : Bytes → Assoc V → Assoc V
  erase k [] = []
  erase k ((j, w) ∷ m) = let rest = erase k m in if bytes_eq j k then rest else (j, w) ∷ rest

  -- The value that `m[k]` refers to: a fresh `d` where the key was missing.
  unfoldable pub at : V → Bytes → Assoc V → V
  unfolding find
  at d k m = elim (find k m) [ none ↦ d | some v ↦ v ]

module _ {ℓ} {V : Type ℓ} where
  pub find-assign :
      (k j : Bytes) (v : V) (m : Assoc V)
      → find j (assign k v m) ≡ (if bytes_eq k j then some v else find j m)
  unfolding find assign
  find-assign k j v [] = refl
  find-assign k j v ((i, w) ∷ m) =
      ground (arith, bytes_eq_iff k j, bytes_eq_iff i k, bytes_eq_iff i j, find-assign k j v m)

  pub find-erase :
      (k j : Bytes) (m : Assoc V) → find j (erase k m) ≡ (if bytes_eq k j then none else find j m)
  unfolding find erase
  find-erase k j [] = ground arith
  find-erase k j ((i, w) ∷ m) =
      ground (arith, bytes_eq_iff k j, bytes_eq_iff i k, bytes_eq_iff i j, find-erase k j m)
