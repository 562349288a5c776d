-- ===== src/Base/Names.antt =====
-- `std::unordered_set<std::string>`, and `contains` of util/Utils.h on it.
use mathlib.Core.Path.{◌≡◌}
use mathlib.Core.Bool.{Bool, true, false, ◌||◌}
use mathlib.Core.List.{List, [], ◌∷◌}
use native.Mathlib.Omega.{arith}
use distributed_monitor.Base.Tests.{if◌then◌else◌}
use distributed_monitor.Base.ByteString.{Bytes, bytes_eq, bytes_eq_iff}

-- `container.find(x) != container.end()`
unfoldable pub contains : List Bytes → Bytes → Bool
contains [] x = false
contains (y ∷ s) x = bytes_eq y x || contains s x

unfoldable pub insert : List Bytes → Bytes → List Bytes
unfolding contains
insert s x = if contains s x then s else x ∷ s

unfoldable pub erase : List Bytes → Bytes → List Bytes
erase [] x = []
erase (y ∷ s) x = let rest = erase s x in if bytes_eq y x then rest else y ∷ rest

pub contains-insert :
    (s : List Bytes) (x y : Bytes)
    → contains (insert s x) y ≡ (if bytes_eq x y then true else contains s y)
unfolding insert
contains-insert s x y = ground (arith, bytes_eq_iff x y)

pub contains-erase :
    (s : List Bytes) (x y : Bytes)
    → contains (erase s x) y ≡ (if bytes_eq x y then false else contains s y)
unfolding contains erase
contains-erase [] x y = ground arith
contains-erase (z ∷ s) x y =
    ground (arith, bytes_eq_iff z x, bytes_eq_iff z y, bytes_eq_iff x y, contains-erase s x y)
