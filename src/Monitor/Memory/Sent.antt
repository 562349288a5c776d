-- ===== src/Monitor/Memory/Sent.antt =====
-- What a step of one process sends, by whether it is a SYNC.
use distributed_monitor.Base.{
  ℕ, ◌<◌, ◌≡◌, ◌≢◌, refl, inl, inr, true, false, List, [], ◌∷◌, arith, ◌==◌, All, count, Bool-cases,
}
use distributed_monitor.Communication.Packet.{mutex_request, sync, type_eq, Packet}
use distributed_monitor.Communication.Clock.{Delivery, send, send_one, send_others}
use distributed_monitor.Exclusion.Algorithm.{queue, send_agreement}
use distributed_monitor.Exclusion.Network.{spread, sent_to}
use distributed_monitor.Exclusion.Handler.{Outcome, skip, grant, delay, collect, on_packet-Outcome}
use distributed_monitor.Exclusion.System.{
  Process, Act, acquire, acquired, release, answer, released, handled, other_send,
}
use distributed_monitor.Monitor.Fresh.{saves, synced}
use distributed_monitor.Monitor.Memory.CatchUp.{IsOther}

pub saves-IsOther : (out : List Delivery) → saves out ≡ false → All (λ d. IsOther d.packet) out
saves-IsOther [] h = tt
saves-IsOther (d ∷ out) h = (ground (arith, h), saves-IsOther out (ground (arith, h)))

pub saves-spread : (p : Packet) (l : List ℕ) → IsOther p → saves (spread p l) ≡ false
saves-spread p [] h = refl
saves-spread p (r ∷ l) h = rw h (saves-spread p l h)

-- One SYNC to one other process.
pub record IsOneSync (n : ℕ) (p p' : Process) (out : List Delivery) : Type 0 where
  pub delivery : Delivery
  pub only : out ≡ delivery ∷ []
  pub known : delivery.to < n
  pub elsewhere : delivery.to ≢ p.exclusion.communicator.my_process_id
  pub is_sync : type_eq delivery.packet.message_type sync ≡ true
  pub same_hand : p'.hand ≡ p.hand

pub Outcome-saves :
    {p : Process} {packet : Packet} {p' : Process} {out : List Delivery}
    → Outcome p packet p' out
    → saves out ≡ false
unfolding send_agreement send_one send
Outcome-saves (skip o) = refl
Outcome-saves (grant t c) = refl
Outcome-saves (delay t c) = refl
Outcome-saves (collect e t) = refl

-- What a step of one of two processes sends, if a SYNC is among it.
pub Act-IsOneSync :
    {p p' : Process} {out : List Delivery}
    → Act 2 p p' out
    → p.exclusion.communicator.my_process_id < 2
    → saves out ≡ true
    → IsOneSync 2 p p' out
unfolding queue send_agreement send_one send_others send
Act-IsOneSync {p} (acquire name r e) me h =
    let sent = (send_others p.exclusion.communicator mutex_request name).1 in
    absurd (ground (arith, h, saves-spread sent p.exclusion.communicator.other_processes refl))
Act-IsOneSync (acquired e c) me h = absurd (cc)
Act-IsOneSync (release name r e) me h = absurd (cc)
Act-IsOneSync (answer e) me h = absurd (cc)
Act-IsOneSync (released e) me h = absurd (cc)
Act-IsOneSync {p} (handled {packet} f e r) me h =
    absurd (ground (arith, h, Outcome-saves (on_packet-Outcome p packet r)))
Act-IsOneSync (other_send t message [] known once a b) me h = absurd (cc)
Act-IsOneSync (other_send t message (r ∷ []) known once a b) me h = record {
  delivery = _;
  only = refl;
  known = known.0.0;
  elsewhere = known.0.1;
  is_sync = ground (arith, h);
  same_hand = refl;
}
Act-IsOneSync (other_send t message (r ∷ x ∷ rest) known once a b) me h =
    absurd (ground (arith, known.0, known.1.0, once r, me))

-- Packets from `j` that no SYNC is among.
pub synced-IsOther :
    (j : ℕ) (ps : List Packet)
    → All (λ p. p.source ≡ j) ps
    → count (synced j) ps ≡ 0
    → All IsOther ps
synced-IsOther j [] h c = tt
synced-IsOther j (p ∷ ps) h c =
    (ground (arith, c, h.0), synced-IsOther j ps h.1 (ground (arith, c)))

pub sent_to-IsOther :
    (b : ℕ) (out : List Delivery) → saves out ≡ false → All IsOther (sent_to b out)
sent_to-IsOther b [] h = tt
sent_to-IsOther b (d ∷ out) h = elim (Bool-cases (b == d.to)) [
  | inl e ↦ rw e (ground (arith, h), sent_to-IsOther b out (ground (arith, h)))
  | inr e ↦ rw e (sent_to-IsOther b out (ground (arith, h)))
]
