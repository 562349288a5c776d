-- ===== src/Exclusion/Weights.antt =====
-- Sets of packets by weight: a packet that is inserted counts, unless an equal one is there.
use distributed_monitor.Base.{
  ℕ, ◌+◌, ◌≤◌, ◌≡◌, ◌⊎◌, refl, inl, inr, true, false, if◌then◌else◌, List, [], ◌∷◌, arith, count,
  any, Bool-cases, Bytes, bytes_eq, bytes_eq_iff,
}
use distributed_monitor.Communication.Packet.{MessageType, Packet, packet_eq, insert}
use distributed_monitor.Base.Assoc
use distributed_monitor.Base.Assoc.{Assoc}
use distributed_monitor.Exclusion.System.{Main, running, acquiring, releasing, is_releasing}
use distributed_monitor.Exclusion.Defs.{weigh, left_over}

weigh-eq :
    (t : MessageType) (m : Bytes) (j : ℕ) (p q : Packet)
    → packet_eq p q ≡ true
    → weigh t m j p ≡ weigh t m j q
unfolding packet_eq
weigh-eq t m j p q h =
    ground
      (arith, bytes_eq_iff p.message q.message, bytes_eq_iff p.message m, bytes_eq_iff q.message m)

weigh-le_count :
    (t : MessageType) (m : Bytes) (j : ℕ) (p : Packet) (s : List Packet)
    → any (packet_eq p) s ≡ true
    → weigh t m j p ≤ count (weigh t m j) s
weigh-le_count t m j p [] h = absurd (ground arith)
weigh-le_count t m j p (q ∷ s) h = elim (Bool-cases (packet_eq p q)) [
  | inl e ↦ omega (arith, weigh-eq t m j p q e)
  | inr e ↦ omega (arith, weigh-le_count t m j p s (rw e at h))
]

pub count-insert :
    (t : MessageType) (m : Bytes) (j : ℕ) (s : List Packet) (p : Packet)
    → (count (weigh t m j) s ≡ 0) ⊎ (weigh t m j p ≡ 0)
    → count (weigh t m j) (insert s p) ≡ weigh t m j p + count (weigh t m j) s
unfolding insert
count-insert t m j s p h = elim (Bool-cases (any (packet_eq p) s)) [
  | inl e ↦ rw e (omega (arith, weigh-le_count t m j p s e))
  | inr e ↦ rw e
]

pub count-insert_le :
    (w : Packet → ℕ) (s : List Packet) (p : Packet) → count w (insert s p) ≤ w p + count w s
unfolding insert
count-insert_le w s p = ground arith

-- Outside `releaseMutex` all that is stored is put off.
pub left_over_stored :
    (m : Bytes) (s : List Packet) (main : Main) → is_releasing main ≡ false → left_over m s main ≡ s
left_over_stored m s running h = refl
left_over_stored m s (acquiring name ag) h = refl
left_over_stored m s (releasing name rest) h = cc

pub at-assign :
    {V : Type 0} (d : V) (k j : Bytes) (v : V) (a : Assoc V)
    → Assoc.at d j (Assoc.assign k v a) ≡ (if bytes_eq k j then v else Assoc.at d j a)
unfolding Assoc.at
at-assign d k j v a = ground (arith, Assoc.find-assign k j v a)
