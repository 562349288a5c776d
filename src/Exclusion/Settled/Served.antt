-- ===== src/Exclusion/Settled/Served.antt =====
-- Where the runs without a call lead, from a state that the system reaches.
use distributed_monitor.Base.{
  ℕ, zero, suc, ◌+◌, ◌^◌, ◌<◌, ◌≡◌, ◌⊎◌, refl, subst, inl, inr, true, List, none, arith, Bytes,
}
use distributed_monitor.Communication.Packet.{Packet}
use distributed_monitor.Communication.Clock.{Delivery}
use distributed_monitor.Exclusion.System.{
  acquiring, Process, System, Act, acquire, acquired, release, answer, released, handled,
  other_send, Step, act, receive, Reach, later, Owns,
}
use distributed_monitor.Exclusion.Progress.{owns, leaves, completes, waiting-SomeCanGoOn}
use distributed_monitor.Exclusion.Settled.{is_call, makes_call, work, Run, begin, next}
use distributed_monitor.Exclusion.Settled.Work.{Run-work, Step-work}
use distributed_monitor.Exclusion.Settled.Registered.{AreRegistered, accepts, Run-AreRegistered}
use distributed_monitor.Exclusion.Settled.Search.{GoesOn, IsPatient, IsIdle, search_step}

module _ {names : List Bytes} {n k : ℕ} {s : System} (small : n < 2 ^ 31) (fits : k < 2 ^ 64)
    (r : Reach names n k s) (registered : AreRegistered names n s) where
  search_reached : GoesOn n s ⊎ IsIdle n s
  search_reached = search_step n s (accepts small fits r registered)

  -- In an idle state a process waits for an owner.
  idle-Owns :
      IsIdle n s
      → (name : Bytes) (i : ℕ) → i < n
      → (agreements : List Packet) → (s.process i).main ≡ acquiring name agreements
      → (j : ℕ) × (j < n) × Owns name (s.process j)
  idle-Owns idle name i li ag e =
      let (j, lj, goes) = waiting-SomeCanGoOn name small fits r idle.quiet i li ag e in
      elim goes [
        | owns o ↦ (j, lj, o)
        | leaves m ↦ absurd (ground (arith, (idle.patient j lj).free))
        | completes {agreements = held} m c ↦
            absurd (ground (arith, (idle.patient j lj).lacks name held m))
      ]

-- Every step that is possible is a call.
abbrev pub IsSettled : ℕ → System → Type 0
IsSettled n s = (t : System) (st : Step n s t) → makes_call st ≡ true

-- Every process that waits for a mutex waits for a process that owns it.
abbrev pub AreServed : ℕ → System → Type 0
AreServed n s =
    (name : Bytes) (i : ℕ)
    → i < n
    → (agreements : List Packet) → (s.process i).main ≡ acquiring name agreements
    → (j : ℕ) × (j < n) × Owns name (s.process j)

pub Run-Reach :
    {names : List Bytes} {n k : ℕ} {s : System} {l : ℕ} {t : System}
    → Reach names n k s
    → Run n s l t
    → Reach names n (l + k) t
Run-Reach {names} {n} {s = s} r begin = subst (λ x. Reach names n x s) (omega arith) r
Run-Reach {names} {n} r (next {u = u} run st f) =
    subst (λ x. Reach names n x u) (omega arith) (later (Run-Reach r run) st)

-- Over `MpiSimpleCommunicator` the wait of `acquireMutex` ends unless somebody has the mutex. Take a state that `n` processes,
-- fewer than 2 ^ 31, reach, in which each process that waits has registered the mutex that it waits
-- for, where the steps so far and the work that is left are fewer than 2 ^ 64, and any run from there
-- without a call. If then no step is possible but a call, every process that waits for a mutex waits
-- for one that some process owns.
pub IsSettled-AreServed :
    {names : List Bytes} {n k : ℕ} {s : System} {l : ℕ} {t : System}
    → n < 2 ^ 31
    → k + work n s < 2 ^ 64
    → Reach names n k s
    → AreRegistered names n s
    → Run n s l t
    → IsSettled n t
    → AreServed n t
IsSettled-AreServed {names} {n} {k} {s} {l} {t} small fits r registered run settled =
    let fit : l + k < 2 ^ 64 = omega (arith, Run-work run) in
    let reached = Run-Reach r run in
    let known = Run-AreRegistered names run registered in
    elim (search_reached small fit reached known) [
      | inl (u, st, f) ↦ absurd (ground (arith, settled u st))
      | inr idle ↦ idle-Owns small fit reached known idle
    ]

-- In an idle state only calls are left.
idle-is_call :
    {n : ℕ} {p p' : Process} {out : List Delivery} (a : Act n p p' out)
    → IsPatient p
    → p.hand ≡ none
    → is_call a ≡ true
idle-is_call (acquire name r e) h free = refl
idle-is_call (acquired {name} {agreements} e c) h free =
    absurd (ground (arith, h.lacks name agreements e))
idle-is_call (release name r e) h free = refl
idle-is_call (answer e) h free = absurd (ground (arith, h.free))
idle-is_call (released e) h free = absurd (ground (arith, h.free))
idle-is_call (handled f e r) h free = absurd (cc)
idle-is_call (other_send t message recipient lt ne a b) h free = refl

pub idle-IsSettled : (n : ℕ) (s : System) → IsIdle n s → IsSettled n s
idle-IsSettled n s idle t (act i li a) = idle-is_call a (idle.patient i li) (idle.quiet.hands i li)
idle-IsSettled n s idle t (receive i j li lj free first) =
    absurd (ground (arith, idle.quiet.channels j i lj li))

-- A run goes on until it is settled.
go_on :
    {names : List Bytes} {n k : ℕ} {s : System} (fuel : ℕ) {l : ℕ} {t : System}
    → n < 2 ^ 31
    → k + work n s < 2 ^ 64
    → Reach names n k s
    → AreRegistered names n s
    → work n t < fuel
    → Run n s l t
    → (l' : ℕ) × (u : System) × Run n s l' u × IsSettled n u
go_on zero small fits r registered enough run = absurd (omega arith)
go_on {names} {n} {k} {s} (suc fuel) {l} {t} small fits r registered enough run =
    let fit : l + k < 2 ^ 64 = omega (arith, Run-work run) in
    elim (search_reached small fit (Run-Reach r run) (Run-AreRegistered names run registered)) [
      | inr idle ↦ (l, t, run, idle-IsSettled n t idle)
      | inl (u, st, f) ↦
          go_on fuel small fits r registered (omega (arith, Step-work st f)) (next run st f)
    ]

-- A run without a call can always be brought to its end: from each state that `n` processes, fewer
-- than 2 ^ 31, reach, in which each process that waits has registered the mutex that it waits for,
-- some run without a call leads to a state in which no step is possible but a call. The state is
-- reached in so few steps that they and the work that is left in it are fewer than 2 ^ 64.
pub Reach-IsSettled :
    {names : List Bytes} {n k : ℕ} {s : System}
    → n < 2 ^ 31
    → k + work n s < 2 ^ 64
    → Reach names n k s
    → AreRegistered names n s
    → (l : ℕ) × (t : System) × Run n s l t × IsSettled n t
Reach-IsSettled {n} {s} small fits r registered =
    go_on (suc (work n s)) small fits r registered (omega arith) begin
