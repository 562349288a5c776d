-- ===== src/Exclusion/Settled/Owned.antt =====
-- That a mutex that somebody waits for comes to be owned.
use distributed_monitor.Base.{
  ℕ, ◌+◌, ◌^◌, ◌<◌, ◌≡◌, refl, sym, subst, ap, inl, inr, false, List, some, arith, ==_ne, ==_refl,
  Option-cases, Bytes,
}
use native.Mathlib.Decide.{ℕ_discrete}
use distributed_monitor.Communication.Packet.{Packet, insert}
use distributed_monitor.Communication.Clock.{Delivery}
use distributed_monitor.Exclusion.Algorithm.{send_agreement, defer}
use distributed_monitor.Exclusion.System.{
  running, acquiring, busy_with, update, taken, Process, System, Act, acquire, acquired, release,
  answer, released, handled, other_send, act, receive, Reach, Owns,
}
use distributed_monitor.Exclusion.Defs.{queued, IsMain}
use distributed_monitor.Exclusion.Handler.{Outcome, skip, grant, delay, collect, on_packet-Outcome}
use distributed_monitor.Exclusion.Invariant.{Reach-Inv}
use distributed_monitor.Exclusion.Settled.{is_call, work, Run, begin, next}
use distributed_monitor.Exclusion.Settled.Work.{Run-work}
use distributed_monitor.Exclusion.Settled.Registered.{AreRegistered, Run-AreRegistered}
use distributed_monitor.Exclusion.Settled.Served.{
  AreServed, IsSettled-AreServed, Reach-IsSettled, Run-Reach,
}

-- The process has queued for the mutex, and waits for it or has returned with it.
data Seeks (name : Bytes) (p : Process) : Type 0 where
  waits :
      (t : ℕ) (agreements : List Packet)
      → p.main ≡ acquiring name agreements
      → queued name p ≡ some t
      → Seeks name p
  has : (t : ℕ) → p.main ≡ running → queued name p ≡ some t → Seeks name p

Outcome-Seeks :
    {name : Bytes} {p : Process} {packet : Packet} {p' : Process} {out : List Delivery}
    → Outcome p packet p' out
    → Seeks name p
    → Seeks name p'
unfolding send_agreement defer
Outcome-Seeks (skip o) (waits t ag e q) = waits t ag e q
Outcome-Seeks (skip o) (has t e q) = has t e q
Outcome-Seeks (grant y c) (waits t ag e q) = waits t ag e q
Outcome-Seeks (grant y c) (has t e q) = has t e q
Outcome-Seeks (delay y c) (waits t ag e q) = waits t ag e q
Outcome-Seeks (delay y c) (has t e q) = has t e q
Outcome-Seeks {packet = packet} (collect {agreements = before} o y) (waits t ag e q) =
    waits t (insert before packet) (ground (arith, e, o)) q
Outcome-Seeks (collect o y) (has t e q) = absurd (ground (arith, e, o))

Act-Seeks :
    {name : Bytes} {n : ℕ} {p p' : Process} {out : List Delivery} (a : Act n p p' out)
    → is_call a ≡ false
    → Seeks name p
    → Seeks name p'
Act-Seeks (acquire other r e) f h = absurd (cc)
Act-Seeks (acquired e c) f (waits t ag m q) = has t refl q
Act-Seeks (acquired e c) f (has t m q) = absurd (ground (arith, e, m))
Act-Seeks (release other r e) f h = absurd (cc)
Act-Seeks (answer e) f (waits t ag m q) = absurd (ground (arith, e, m))
Act-Seeks (answer e) f (has t m q) = absurd (ground (arith, e, m))
Act-Seeks (released e) f (waits t ag m q) = absurd (ground (arith, e, m))
Act-Seeks (released e) f (has t m q) = absurd (ground (arith, e, m))
Act-Seeks {p = p} (handled {packet} g e r) f h = Outcome-Seeks (on_packet-Outcome p packet r) h
Act-Seeks (other_send t message recipient lt ne a b) f h = absurd (cc)

taken-Seeks :
    {name : Bytes} {p : Process} {packet : Packet} → Seeks name p → Seeks name (taken p packet)
taken-Seeks (waits t ag e q) = waits t ag e q
taken-Seeks (has t e q) = has t e q

Run-Seeks :
    {name : Bytes} {n : ℕ} {s : System} {l : ℕ} {t : System} (i : ℕ)
    → Run n s l t
    → Seeks name (s.process i)
    → Seeks name (t.process i)
Run-Seeks i begin h = h
Run-Seeks {name} i (next {t = t} r (act j {p} lj a) f) h = elim (ℕ_discrete j i) [
  | yes e ↦
      subst (λ z. Seeks name (update t.process j p z)) e
        (rw (==_refl j)
          (Act-Seeks a f (subst (λ z. Seeks name (t.process z)) (sym e) (Run-Seeks i r h))))
  | no ne ↦ rw (==_ne j i ne) (Run-Seeks i r h)
]
Run-Seeks {name} i (next {t = t} r (receive j b {packet} lj lb free c) f) h =
    elim (ℕ_discrete j i) [
      | yes e ↦
          subst (λ z. Seeks name (update t.process j (taken (t.process j) packet) z)) e
            (rw (==_refl j)
              (taken-Seeks (subst (λ z. Seeks name (t.process z)) (sym e) (Run-Seeks i r h))))
      | no ne ↦ rw (==_ne j i ne) (Run-Seeks i r h)
    ]

-- Over `MpiSimpleCommunicator` a mutex that somebody waits for comes to be owned, whatever has been done meanwhile. Take a state
-- that `n` processes, fewer than 2 ^ 31, reach, in which each process that waits has registered the
-- mutex that it waits for, where the steps so far and the work that is left are fewer than 2 ^ 64.
-- If a process waits there for a mutex, any run from there without a call can be continued, again
-- without a call, to a state in which some process owns that mutex.
pub waiting-IsOwned :
    {names : List Bytes} {n k : ℕ} {s : System} {l : ℕ} {t : System} (name : Bytes) (i : ℕ)
    (agreements : List Packet)
    → n < 2 ^ 31
    → k + work n s < 2 ^ 64
    → Reach names n k s
    → AreRegistered names n s
    → i < n
    → (s.process i).main ≡ acquiring name agreements
    → Run n s l t
    → (m : ℕ) × (u : System) × Run n t m u × (j : ℕ) × (j < n) × Owns name (u.process j)
waiting-IsOwned {names} {n} {k} {s} {l} {t} name i ag small fits r registered li e run =
    let spent = Run-work run in
    let reached = Run-Reach r run in
    let known = Run-AreRegistered names run registered in
    let (m, u, more, settled) = Reach-IsSettled small (omega (arith, spent)) reached known in
    let served = IsSettled-AreServed small (omega (arith, spent)) reached known more settled in
    let (j, lj, owned) = owner m u served (Run-Seeks i more (Run-Seeks i run start_Seeks)) in
    (m, u, more, j, lj, owned)
  where
    start_Seeks : Seeks name (s.process i)
    start_Seeks = elim (Option-cases (queued name (s.process i))) [
      | inl q ↦ absurd (
          (subst (IsMain n i (s.process i)) e
              ((Reach-Inv name small (omega (arith, fits)) r).local i li).main_ok).1
            q)
      | inr (time, q) ↦ waits time ag e q
    ]

    owner :
        (m : ℕ) (u : System)
        → AreServed n u
        → Seeks name (u.process i)
        → (j : ℕ) × (j < n) × Owns name (u.process j)
    owner m u served (waits time held w q) = served name i li held w
    owner m u served (has time w q) =
        (i, li, record { stamp = time; queued = q; settled = ap (busy_with name) w })
