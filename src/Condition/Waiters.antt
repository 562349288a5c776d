-- ===== src/Condition/Waiters.antt =====
-- The ordered set of those that wait: what an insertion does to it.
use distributed_monitor.Base.{
  ℕ, ◌+◌, ◌<◌, ◌≡◌, ◌≢◌, refl, List, [], ◌∷◌, arith, ◌==◌, if◌then◌else◌, count, All,
}
use distributed_monitor.Communication.Packet.{Packet, insert_ordered}

abbrev pub stamp_at : ℕ → Packet → ℕ
stamp_at t p = if p.lamport_time == t then 1 else 0

-- Strictly ascending stamps.
abbrev pub IsAscending : List Packet → Type 0
IsAscending [] = Unit
IsAscending (p ∷ s) = All (λ q. p.lamport_time < q.lamport_time) s × IsAscending s

later-insert :
    (t : ℕ) (s : List Packet) (p : Packet)
    → All (λ q. t < q.lamport_time) s
    → t < p.lamport_time
    → All (λ q. t < q.lamport_time) (insert_ordered s p)
unfolding insert_ordered
later-insert t [] p h lt = (lt, tt)
later-insert t (q ∷ s) p h lt = ground (arith, later-insert t s p)

later_trans :
    (t u : ℕ) (s : List Packet)
    → t < u
    → All (λ q. u < q.lamport_time) s
    → All (λ q. t < q.lamport_time) s
later_trans t u [] lt h = tt
later_trans t u (q ∷ s) lt h = (omega arith, later_trans t u s lt h.1)

-- The set stays in ascending order of the stamps, with no stamp twice.
pub insert_ordered-IsAscending :
    (s : List Packet) (p : Packet) → IsAscending s → IsAscending (insert_ordered s p)
unfolding insert_ordered
insert_ordered-IsAscending [] p h = (tt, tt)
insert_ordered-IsAscending (q ∷ s) p h = ground (
  arith,
  insert_ordered-IsAscending s p,
  later-insert q.lamport_time s p,
  later_trans p.lamport_time q.lamport_time s,
)

later-count : (t : ℕ) (s : List Packet) → All (λ q. t < q.lamport_time) s → count (stamp_at t) s ≡ 0
later-count t [] h = refl
later-count t (q ∷ s) h = ground (arith, later-count t s)

-- A packet whose stamp no member has is added, whatever is counted.
pub insert_ordered-fresh :
    (w : Packet → ℕ) (s : List Packet) (p : Packet)
    → count (stamp_at p.lamport_time) s ≡ 0
    → count w (insert_ordered s p) ≡ w p + count w s
unfolding insert_ordered
insert_ordered-fresh w [] p h = refl
insert_ordered-fresh w (q ∷ s) p h = ground (arith, insert_ordered-fresh w s p)

-- A packet with the stamp of a member is not added, whoever sent it.
pub insert_ordered-taken :
    (s : List Packet) (p : Packet)
    → IsAscending s
    → count (stamp_at p.lamport_time) s ≢ 0
    → insert_ordered s p ≡ s
unfolding insert_ordered
insert_ordered-taken [] p h ne = absurd (ne refl)
insert_ordered-taken (q ∷ s) p h ne = ground (
  arith,
  insert_ordered-taken s p,
  later-count p.lamport_time s,
  later_trans p.lamport_time q.lamport_time s,
)
