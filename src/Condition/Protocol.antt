-- ===== src/Condition/Protocol.antt =====
-- What a wait means between the process that waits and another one, as counts of packets.
use distributed_monitor.Base.{
  ℕ, ◌+◌, ◌≤◌, ◌≡◌, ◌≢◌, List, [], ◌∷◌, ◌++◌, arith, ◌==◌, if◌then◌else◌, count, count-append,
  Bytes,
}
use distributed_monitor.Communication.Packet.{
  Packet, cond_wait, cond_wait_end, cond_wait_end_confirm, cond_notify,
}
use distributed_monitor.Communication.Clock.Laws.{one_at}
use distributed_monitor.Exclusion.Defs.{weigh}
use distributed_monitor.Condition.Algorithm.{waiting}
use distributed_monitor.Condition.System.{Stage, outside, notifying, sleeping, confirming, Member}

abbrev pub from : ℕ → Packet → ℕ
from i p = if p.source == i then 1 else 0

abbrev pub asleep : Stage → ℕ
asleep outside = 0
asleep (notifying _) = 0
asleep sleeping = 1
asleep (confirming _) = 0

abbrev pub ending : Stage → ℕ
ending outside = 0
ending (notifying _) = 0
ending sleeping = 0
ending (confirming _) = 1

abbrev pub received : Stage → List Packet
received outside = []
received (notifying _) = []
received sleeping = []
received (confirming ps) = ps

abbrev pub aims : ℕ → Stage → ℕ
aims i outside = 0
aims i (notifying rs) = count (one_at i) rs
aims i sleeping = 0
aims i (confirming _) = 0

-- No packet that `earlier` counts stands behind one that `later` counts.
abbrev pub IsBehind : (Packet → ℕ) → (Packet → ℕ) → List Packet → Type 0
IsBehind later earlier [] = Unit
IsBehind later earlier (p ∷ ps) = (later p ≢ 0 → count earlier ps ≡ 0) × IsBehind later earlier ps

pub IsBehind-append :
    (later earlier : Packet → ℕ) (xs ys : List Packet)
    → IsBehind later earlier xs
    → IsBehind later earlier ys
    → (count later xs ≢ 0 → count earlier ys ≡ 0)
    → IsBehind later earlier (xs ++ ys)
IsBehind-append later earlier [] ys hx hy h = hy
IsBehind-append later earlier (x ∷ xs) ys hx hy h = (
  λ ne. omega (arith, hx.0 ne, h (omega (arith, ne)), count-append earlier xs ys),
  IsBehind-append later earlier xs ys hx.1 hy (λ ne. h (omega (arith, ne))),
)

-- A list that neither count sees changes no order.
pub IsBehind-zero :
    (later earlier : Packet → ℕ) (xs : List Packet)
    → count earlier xs ≡ 0
    → IsBehind later earlier xs
IsBehind-zero later earlier [] e = tt
IsBehind-zero later earlier (x ∷ xs) e =
    (λ _. omega (arith, e), IsBehind-zero later earlier xs (omega (arith, e)))

pub IsBehind-none :
    (later earlier : Packet → ℕ) (xs : List Packet) → count later xs ≡ 0 → IsBehind later earlier xs
IsBehind-none later earlier [] e = tt
IsBehind-none later earlier (x ∷ xs) e =
    (λ ne. absurd (omega (arith, e, ne)), IsBehind-none later earlier xs (omega (arith, e)))

-- The counts: calls and ends on the way there, what is known there, notifications and confirmations on
-- the way back, confirmations received, the stage, and whether a notification is aimed.
pub record IsSound (calls ends known notes answers received asleep ending aimed : ℕ) : Type 0 where
  pub answered : ends + (answers + received) ≡ ending
  pub once : calls ≤ asleep + ending
  pub idle : asleep + ending ≡ 0 → known + notes ≡ 0
  pub unknown : calls ≢ 0 → known + notes ≡ 0
  pub gone : ending ≢ 0 → ends ≡ 0 → calls + known ≡ 0
  pub done : received ≢ 0 → notes ≡ 0
  pub aim : aimed ≢ 0 → (asleep ≡ 1) × (calls ≡ 0)

module _ (name : Bytes) where
  abbrev pub known : ℕ → Member → ℕ
  known i q = count (from i) (waiting name q.condition)

  pub record Pair (i j : ℕ) (p q : Member) (there back : List Packet) : Type 0 where
    pub counts :
        IsSound
          (count (weigh cond_wait name i) there)
          (count (weigh cond_wait_end name i) there)
          (known i q)
          (count (weigh cond_notify name j) back)
          (count (weigh cond_wait_end_confirm name j) back)
          (count (weigh cond_wait_end_confirm name j) (received p.stage))
          (asleep p.stage)
          (ending p.stage)
          (aims i q.stage)
    pub calls_first : IsBehind (weigh cond_wait_end name i) (weigh cond_wait name i) there
    pub notes_first : IsBehind (weigh cond_wait_end_confirm name j) (weigh cond_notify name j) back
