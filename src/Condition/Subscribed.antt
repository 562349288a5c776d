-- ===== src/Condition/Subscribed.antt =====
-- The subscription that takes a packet about the condition variable.
use distributed_monitor.Base.{
  ℕ, ◌+◌, ◌^◌, ◌<◌, ◌≡◌, ◌≢◌, refl, ap, subst, ◌∙◌, true, List, ◌∷◌, some, arith, count, Bytes,
  bytes_eq_refl,
}
use distributed_monitor.Communication.Packet.{
  MessageType, type_eq, cond_wait_end_confirm, cond_notify, Packet,
}
use distributed_monitor.Communication.Clock.{Delivery}
use distributed_monitor.Exclusion.Defs.{weigh}
use distributed_monitor.Condition.System.{
  Stage, outside, notifying, sleeping, confirming, awaits_notify, Member, System,
  on_condition_packet, on_stage, Reach,
}
use distributed_monitor.Condition.Protocol.{asleep, ending}
use distributed_monitor.Condition.Members.{Kind, call, end, answer, note, type_of}
use distributed_monitor.Condition.Handle.{packet, noted, answered, result}
use distributed_monitor.Condition.Moved.{Inv}
use distributed_monitor.Condition.Steps.{distinct, kind, p-eta, by_result, Reach-Inv}

noted-some :
    (m : Member) (stage : Stage)
    → asleep stage + ending stage ≢ 0
    → (r : Member × List Delivery) × (noted m (awaits_notify stage) ≡ some r)
noted-some m outside h = absurd (h refl)
noted-some m (notifying rs) h = absurd (h refl)
noted-some m sleeping h = (_, refl)
noted-some m (confirming ps) h = (_, refl)

answered_some :
    (m : Member) (p : Packet) (stage : Stage)
    → ending stage ≢ 0
    → (r : Member × List Delivery) × (answered m (on_stage m p stage) ≡ some r)
answered_some m p outside h = absurd (h refl)
answered_some m p (notifying rs) h = absurd (h refl)
answered_some m p sleeping h = absurd (h refl)
answered_some m p (confirming ps) h = (_, refl)

module _ {name : Bytes} {n : ℕ} {s : System} (small : n < 2 ^ 31) (inv : Inv name n s) where
  open inv use {local, pairs}

  module _ (i j : ℕ) {p : Packet} {rest : List Packet} (li : i < n) (lj : j < n)
      (first : s.channel j i ≡ p ∷ rest) where
    -- What is counted of the channel counts the packet.
    weighs : (w : Packet → ℕ) → w p ≡ 1 → count w (s.channel j i) ≢ 0
    weighs w h z = absurd (omega (arith, z, h, ap (count w) first))

    packet_weight :
        (t : MessageType) (k : Kind)
        → packet name p.lamport_time j k ≡ p
        → type_eq (type_of k) t ≡ true
        → weigh t name j p ≡ 1
    packet_weight t k e h =
        subst (λ z. weigh t name j z ≡ 1) e (ground (arith, h, bytes_eq_refl name))

    -- The subscription is there: for a notification that of `wait`, for a confirmation that of its end.
    abbrev Handles : Packet → Kind → Type 0
    Handles q k = (r : Member × List Delivery) × (result (s.member i) q k ≡ some r)

    has_result :
        (k : Kind) → packet name p.lamport_time j k ≡ p → Handles (packet name p.lamport_time j k) k
    has_result call e = (_, refl)
    has_result end e = (_, refl)
    has_result note e = noted-some (s.member i) (s.member i).stage (λ z.
        weighs (weigh cond_notify name j) (packet_weight cond_notify note e refl)
          (omega (arith, (pairs i j li lj (distinct small inv i j li lj first)).counts.idle z)))
    has_result answer e =
        answered_some (s.member i) (packet name p.lamport_time j answer) (s.member i).stage (λ z.
          weighs (weigh cond_wait_end_confirm name j)
            (packet_weight cond_wait_end_confirm answer e refl)
            (omega
              (arith, (pairs i j li lj (distinct small inv i j li lj first)).counts.answered, z)))

    handles : (r : Member × List Delivery) × (on_condition_packet name (s.member i) p ≡ some r)
    handles =
        let found =
          subst (λ z. Handles z (kind small inv i j li lj first)) (p-eta small inv i j li lj first)
            (has_result (kind small inv i j li lj first) (p-eta small inv i j li lj first)) in
        (found.0, (by_result small inv i j li lj first) ∙ found.1)

-- In every reachable state of fewer than 2 ^ 31 processes that share one condition variable, where a
-- process looks for waiters only while it owns the mutex and keeps it until the notification is
-- sent, a packet at the head of a channel is taken by a subscription of its receiver: its receiving
-- thread does not throw.
pub on_condition_packet-total :
    {name : Bytes} {n : ℕ} {s : System}
    → n < 2 ^ 31
    → Reach name n s
    → (i j : ℕ) {p : Packet} {rest : List Packet} → i < n
    → j < n
    → s.channel j i ≡ p ∷ rest
    → (r : Member × List Delivery) × (on_condition_packet name (s.member i) p ≡ some r)
on_condition_packet-total small r i j li lj first =
    handles small (Reach-Inv small r) i j li lj first
