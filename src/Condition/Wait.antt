-- ===== src/Condition/Wait.antt =====
-- `wait` of algorithms/DistributedConditionVariableAlgorithm.h as a machine of one process: the local
-- wait `realCond.wait(mutex, predicate)` with its loop over the predicate, then the collection of
-- the confirmations. The mutex is not held while the process sleeps, and others may then change the
-- variables; a process may also wake without a notification.
use distributed_monitor.Base.{
  ℕ, ◌+◌, ◌-◌, ◌%◌, ◌^◌, ◌≤◌, ◌<◌, ◌≡◌, ◌≢◌, refl, Bool, true, false, List, [], ◌∷◌, arith, length,
  count, any, All, Bytes, bytes_eq_iff, subst, Bool-cases, inl, inr, &&-true, ◌∙◌,
}
use distributed_monitor.Communication.Packet.{cond_wait_end_confirm, Packet, packet_eq, insert}
use distributed_monitor.Communication.Clock.{send, send_others}
use distributed_monitor.Exclusion.Defs.{weigh, IsAnswer}
use distributed_monitor.Exclusion.Quorum.{each_answered}
use distributed_monitor.Condition.Algorithm.{
  Condition, begin_wait, end_wait, takes_confirmation, on_confirmation, are_confirmations_complete,
}

-- Where the main thread stands: at the test of the predicate, in the sleep, at the wait for the
-- confirmations received so far, and after the return.
pub data Phase : Type 0 where
  checking : Phase
  sleeping : Phase
  confirming : List Packet → Phase
  finished : List Packet → Phase

pub record Waiter (V : Type 0) : Type 0 where
  pub condition : Condition
  pub variables : V
  pub owned : Bool
  pub phase : Phase

module _ {V : Type 0} (name : Bytes) (predicate : V → Bool) (n me : ℕ) (a : Condition) (v : V) where
  -- The states of a call of `wait` by process `me` of `n`. A confirmation comes from another process.
  pub data Run : Waiter V → Type 0 where
    begun : Run (record {
      condition = (begin_wait a name).0;
      variables = v;
      owned = true;
      phase = checking;
    })
    slept :
        {w : Waiter V}
        → Run w
        → w.phase ≡ checking
        → predicate w.variables ≡ false
        → Run (record w { owned = false; phase = sleeping })
    woken :
        {w : Waiter V} (v' : V)
        → Run w
        → w.phase ≡ sleeping
        → Run (record w { variables = v'; owned = true; phase = checking })
    ended :
        {w : Waiter V}
        → Run w
        → w.phase ≡ checking
        → predicate w.variables ≡ true
        → Run (record w { condition = (end_wait w.condition name).0; phase = confirming [] })
    confirmed :
        {w : Waiter V} {received : List Packet} (p : Packet)
        → Run w
        → w.phase ≡ confirming received
        → takes_confirmation name p ≡ true
        → p.source < n
        → p.source ≢ me
        → Run (record w { phase = confirming (on_confirmation received p) })
    returned :
        {w : Waiter V} {received : List Packet}
        → Run w
        → w.phase ≡ confirming received
        → are_confirmations_complete w.condition received ≡ true
        → Run (record w { phase = finished received })
    -- The handlers of the receiving thread change the rest of the object.
    elsewhere :
        {w : Waiter V} (c : Condition)
        → Run w
        → c.communicator.number_of_processes ≡ w.condition.communicator.number_of_processes
        → Run (record w { condition = c })

-- One confirmation at most from each process.
abbrev pub IsOnce : Bytes → List Packet → Type 0
IsOnce name ps = (b : ℕ) → count (weigh cond_wait_end_confirm name b) ps ≤ 1

-- What the confirmations are in each phase.
abbrev pub IsHeld : {V : Type 0} → Bytes → (V → Bool) → ℕ → ℕ → Waiter V → List Packet → Type 0
IsHeld name predicate n me w ps =
    All (IsAnswer cond_wait_end_confirm n me name) ps
    × IsOnce name ps
    × (predicate w.variables ≡ true)
    × (w.owned ≡ true)

abbrev pub IsPhase : {V : Type 0} → Bytes → (V → Bool) → ℕ → ℕ → Waiter V → Phase → Type 0
IsPhase name predicate n me w checking = w.owned ≡ true
IsPhase name predicate n me w sleeping = Unit
IsPhase name predicate n me w (confirming ps) = IsHeld name predicate n me w ps
IsPhase name predicate n me w (finished ps) =
    IsHeld name predicate n me w ps × (length ps ≡ (n + 2 ^ 64 - 1) % 2 ^ 64)

-- A packet that no member equals comes from a process that is not among them.
absent :
    (n me b : ℕ) (name : Bytes) (p : Packet) (ps : List Packet)
    → All (IsAnswer cond_wait_end_confirm n me name) ps
    → IsAnswer cond_wait_end_confirm n me name p
    → any (packet_eq p) ps ≡ false
    → p.source ≡ b
    → count (weigh cond_wait_end_confirm name b) ps ≡ 0
unfolding packet_eq
absent n me b name p [] h g none_ e = refl
absent n me b name p (q ∷ ps) h g none_ e = ground (
  arith,
  absent n me b name p ps,
  bytes_eq_iff p.message name,
  bytes_eq_iff q.message name,
  bytes_eq_iff p.message q.message,
)

-- A confirmation that comes in leaves one at most from each process.
on_confirmation-IsOnce :
    (n me : ℕ) (name : Bytes) (ps : List Packet) (p : Packet)
    → All (IsAnswer cond_wait_end_confirm n me name) ps
    → IsAnswer cond_wait_end_confirm n me name p
    → IsOnce name ps
    → All (IsAnswer cond_wait_end_confirm n me name) (on_confirmation ps p)
      × IsOnce name (on_confirmation ps p)
unfolding on_confirmation insert
on_confirmation-IsOnce n me name ps p h g once = elim (Bool-cases (any (packet_eq p) ps)) [
  | inl e ↦ rw e (h, once)
  | inr e ↦ rw e ((g, h), λ b. ground (arith, once b, absent n me b name p ps h g e))
]

module _ {V : Type 0} (name : Bytes) (predicate : V → Bool) (n me : ℕ) (a : Condition) (v : V) where
  Run-size :
      {w : Waiter V}
      → Run name predicate n me a v w
      → w.condition.communicator.number_of_processes ≡ a.communicator.number_of_processes
  unfolding begin_wait end_wait send_others send
  Run-size begun = refl
  Run-size (slept r e h) = Run-size r
  Run-size (woken v' r e) = Run-size r
  Run-size (ended r e h) = Run-size r
  Run-size (confirmed p r e t lt ne) = Run-size r
  Run-size (returned r e h) = Run-size r
  Run-size (elsewhere c r e) = e ∙ Run-size r

  Run-IsPhase :
      {w : Waiter V}
      → a.communicator.number_of_processes ≡ n
      → Run name predicate n me a v w
      → IsPhase name predicate n me w w.phase
  unfolding are_confirmations_complete takes_confirmation
  Run-IsPhase size begun = refl
  Run-IsPhase size (slept r e h) = tt
  Run-IsPhase size (woken v' r e) = refl
  Run-IsPhase size (ended {w} r e h) =
      (tt, λ b. omega arith, h, subst (IsPhase name predicate n me w) e (Run-IsPhase size r))
  Run-IsPhase size (confirmed {w} {received} p r e t lt ne) =
      let before = subst (IsPhase name predicate n me w) e (Run-IsPhase size r) in
      let both = &&-true _ _ t in
      let after =
        on_confirmation-IsOnce n me name received p before.0 (lt, ne, both.0, both.1) before.1 in
      (after.0, after.1, before.2, before.3)
  Run-IsPhase size (returned {w} r e h) = (
    subst (IsPhase name predicate n me w) e (Run-IsPhase size r),
    ground (arith, Run-size r, size, h),
  )
  Run-IsPhase size (elsewhere {w} c r e) = same w.phase (Run-IsPhase size r)
    where
      same :
          (p : Phase)
          → IsPhase name predicate n me w p
          → IsPhase name predicate n me (record w { condition = c }) p
      same checking h = h
      same sleeping h = h
      same (confirming ps) h = h
      same (finished ps) h = h

  -- When a call of `wait` by a process of a system of fewer than 2 ^ 31 returns, the predicate
  -- holds, the mutex is owned, and each other process has confirmed just once that it knows of the
  -- end. Confirmations come from other processes of the system.
  pub wait-answered :
      {w : Waiter V} {received : List Packet} (j : ℕ)
      → n < 2 ^ 31
      → a.communicator.number_of_processes ≡ n
      → me < n
      → j < n
      → me ≢ j
      → Run name predicate n me a v w
      → w.phase ≡ finished received
      → (predicate w.variables ≡ true)
        × (w.owned ≡ true)
        × (count (weigh cond_wait_end_confirm name j) received ≡ 1)
  wait-answered {w} {received} j small size lm lj ne r e =
      let held = subst (IsPhase name predicate n me w) e (Run-IsPhase size r) in
      (
        held.0.2,
        held.0.3,
        each_answered cond_wait_end_confirm name received small lm lj ne held.0.0
            (λ b _ _. held.0.1 b) held.1,
      )
