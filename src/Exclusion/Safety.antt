-- ===== src/Exclusion/Safety.antt =====
-- What holds in every reachable state of the system.
use distributed_monitor.Base.{ℕ, ◌^◌, ◌<◌, ◌≡◌, ◌≢◌, refl, sym, false, List, arith, Bytes}
use native.Mathlib.Decide.{ℕ_discrete}
use distributed_monitor.Exclusion.System.{
  Main, running, acquiring, releasing, busy_with, System, Owns, Reach,
}
use distributed_monitor.Exclusion.Defs.{is_leaving, wants, Before, Inv}
use distributed_monitor.Exclusion.Invariant.{Reach-Inv}

pub settled-quiet :
    (m : Bytes) (main : Main)
    → busy_with m main ≡ false
    → (wants m main ≡ 0) × (is_leaving m main ≡ false)
settled-quiet m running h = (refl, refl)
settled-quiet m (acquiring name ag) h = ground arith
settled-quiet m (releasing name rest) h = ground arith

-- Of two processes the one that owns the mutex asked before the other that has queued for it.
owner_first :
    {n k : ℕ} {m : Bytes} {s : System} (i j : ℕ)
    → Inv n k m s
    → i < n
    → j < n
    → i ≢ j
    → (a : Owns m (s.process i)) (b : Owns m (s.process j)) → Before a.stamp i b.stamp j
owner_first {m} {s} i j inv li lj ne a b =
    (inv.pairs i j li lj ne).order a.stamp b.stamp a.queued b.queued
      (settled-quiet m (s.process j).main b.settled).1
      (omega
        (arith, (inv.pairs i j li lj ne).tokens, (settled-quiet m (s.process i).main a.settled).0))

-- Mutual exclusion: in every state that `n` processes, fewer than 2 ^ 31, reach in fewer than 2 ^
-- 64 steps, two processes that own the same mutex are one.
pub mutual_exclusion :
    {names : List Bytes} {n k : ℕ} {s : System} {m : Bytes}
    → n < 2 ^ 31
    → k < 2 ^ 64
    → Reach names n k s
    → (i j : ℕ) → i < n
    → j < n
    → Owns m (s.process i)
    → Owns m (s.process j)
    → i ≡ j
mutual_exclusion {m} small fits r i j li lj a b = elim (ℕ_discrete i j) [
  | yes e ↦ e
  | no ne ↦
      let inv = Reach-Inv m small fits r in
      absurd (
        omega (
          arith,
          owner_first i j inv li lj ne a b,
          owner_first j i inv lj li (λ e. ne (sym e)) b a,
        ))
]
