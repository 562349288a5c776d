-- ===== src/Monitor/Memory/Carried.antt =====
-- What a SYNC does to the variables of the process that receives it, and what a sender sends.
use distributed_monitor.Base.{
  ℕ, ◌≤◌, ◌<◌, ◌≡◌, ◌≢◌, refl, sym, subst, ◌∙◌, inl, inr, true, List, [], ◌∷◌, Option, none, some,
  arith, ◌==◌, length, All, Bool-cases, Bytes,
}
use distributed_monitor.Communication.Packet.{sync, type_eq, Packet}
use distributed_monitor.Communication.Clock.{Delivery}
use distributed_monitor.Exclusion.System.{Process}
use distributed_monitor.Exclusion.Network.{sent_to, All-mono}
use distributed_monitor.Monitor.Fresh.{saves}
use distributed_monitor.Monitor.Sync.{pack_sync_message, Shared}
use distributed_monitor.Monitor.Memory.{restored, after_hand, Saves}
use distributed_monitor.Monitor.Memory.CatchUp.{
  IsOther, replay, catch_up, restored-IsOther, restored-pack,
}
use distributed_monitor.Monitor.Memory.Sent.{IsOneSync, saves-IsOther}
use distributed_monitor.Monitor.Memory.Kept.{IsSaved}

module _ {V : Type 0} (shared : Shared V) (m : Bytes) (IsValid : V → Type 0)
    (short : length m ≤ 127)
    (law : (v w : V)
      → IsValid v
      → IsValid w
      → shared.restore_state (shared.save_state v) w ≡ v) where
  restored-IsValid :
      (p : Packet) (v : V)
      → IsSaved shared m IsValid p
      → IsValid v
      → IsValid (restored shared m p v)
  restored-IsValid p v saved h = elim (Bool-cases (type_eq p.message_type sync)) [
    | inr e ↦ subst IsValid (sym (restored-IsOther shared m p v e)) h
    | inl e ↦
        let (w, hw, packed) = saved e in
        subst IsValid (sym (restored-pack shared m p w v short e packed ∙ law w v hw h)) hw
  ]

  replay-IsValid :
      (ps : List Packet) (v : V)
      → All (IsSaved shared m IsValid) ps
      → IsValid v
      → IsValid (replay shared m v ps)
  replay-IsValid [] v s h = h
  replay-IsValid (p ∷ ps) v s h =
      replay-IsValid ps (restored shared m p v) s.1 (restored-IsValid p v s.0 h)

  pub catch_up-IsValid :
      (v : V) (hand : Option Packet) (ps : List Packet)
      → ((p : Packet) → hand ≡ some p → IsSaved shared m IsValid p)
      → All (IsSaved shared m IsValid) ps
      → IsValid v
      → IsValid (catch_up shared m v hand ps)
  catch_up-IsValid v none ps a s h = replay-IsValid ps v s h
  catch_up-IsValid v (some p) ps a s h = replay-IsValid (p ∷ ps) v (a p refl, s) h

  pub after_hand-IsValid :
      (v : V) (h h' : Option Packet)
      → ((p : Packet) → h ≡ some p → IsSaved shared m IsValid p)
      → IsValid v
      → IsValid (after_hand shared m h h' v)
  after_hand-IsValid v none h' a hv = hv
  after_hand-IsValid v (some p) none a hv = restored-IsValid p v (a p refl) hv
  after_hand-IsValid v (some p) (some q) a hv = hv

  pub after_hand-IsOther :
      (v : V) (h h' : Option Packet)
      → ((p : Packet) → h ≡ some p → IsOther p)
      → after_hand shared m h h' v ≡ v
  after_hand-IsOther v none h' a = refl
  after_hand-IsOther v (some p) none a = restored-IsOther shared m p v (a p refl)
  after_hand-IsOther v (some p) (some q) a = refl

  -- What is sent carries the variables of the sender.
  pub sends-IsSaved :
      (v : V) (out : List Delivery)
      → IsValid v
      → (saves out ≡ true → Saves shared m v out)
      → All (λ d. IsSaved shared m IsValid d.packet) out
  sends-IsSaved v out h sends = elim (Bool-cases (saves out)) [
    | inl e ↦
        All-mono (λ d. d.packet.message ≡ pack_sync_message m (shared.save_state v))
          (λ d. IsSaved shared m IsValid d.packet) out (λ d p t. (v, h, p)) (sends e)
    | inr e ↦
        All-mono (λ d. IsOther d.packet) (λ d. IsSaved shared m IsValid d.packet) out
          (λ d o t. absurd (cc)) (saves-IsOther out e)
  ]

  -- The SYNC of the sender brings the receiver up to date.
  pub saved_last :
      (p p' : Process) (out : List Delivery) (i y : ℕ) (v w : V)
      → IsOneSync 2 p p' out
      → p.exclusion.communicator.my_process_id ≡ i
      → i < 2
      → y < 2
      → i ≢ y
      → Saves shared m v out
      → IsValid v
      → IsValid w
      → replay shared m w (sent_to y out) ≡ v
  saved_last p p' out i y v w one rank li ly ne sends hv hw =
      subst (λ z. replay shared m w (sent_to y z) ≡ v) (sym one.only)
        (rw (to_other) (
          restored-pack shared m one.delivery.packet v w short one.is_sync
            (subst (Saves shared m v) one.only sends).0
          ∙ law v w hv hw))
    where
      to_other : (y == one.delivery.to) ≡ true
      to_other = ground (arith, one.known, one.elsewhere, rank)
