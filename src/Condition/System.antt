-- ===== src/Condition/System.antt =====
-- Any number of processes that use one condition variable, inside one monitor, with
-- algorithms/DistributedConditionVariableAlgorithm.h. The mutex of the monitor is abstract: at most
-- one process owns it. A packet stands in its channel until it is handled, and only the packets about
-- this condition variable are in the channels; the clock may change at any time.
use Prim.Native.Nat.{ℕ, ◌<◌}
use distributed_monitor.Base.{
  ◌≡◌, Bool, true, false, ◌&&◌, List, [], ◌∷◌, Option, none, some, ◌==◌, if◌then◌else◌, Bytes,
}
use distributed_monitor.Communication.Packet.{Packet, cond_notify}
use distributed_monitor.Communication.Clock.{Delivery, init, send}
use distributed_monitor.Condition.Algorithm.{
  Condition, waiting, takes_wait, on_wait, takes_wait_end, on_wait_end, touch, sources, is_empty,
  begin_wait, takes_notify, end_wait, takes_confirmation, on_confirmation,
  are_confirmations_complete,
}
use distributed_monitor.Exclusion.System.{post, take_from}

-- Where the main thread stands: outside of `wait` and of the notifications; between the two locks of
-- a notification, with the processes to notify; in `realCond.wait`; at the wait for confirmations.
pub data Stage : Type 0 where
  outside : Stage
  notifying : List ℕ → Stage
  sleeping : Stage
  confirming : List Packet → Stage

pub record Member : Type 0 where
  pub condition : Condition
  pub stage : Stage

pub record System : Type 0 where
  pub member : ℕ → Member
  pub channel : ℕ → ℕ → List Packet
  pub owner : Option ℕ

-- Whom `notifyOne` and `notifyAll` notify.
abbrev pub first_source : List Packet → List ℕ
first_source [] = []
first_source (p ∷ _) = p.source ∷ []

-- The subscriptions of `wait`: the notifications until its end, the confirmations at its end.
abbrev pub awaits_notify : Stage → Bool
awaits_notify outside = false
awaits_notify (notifying _) = false
awaits_notify sleeping = true
awaits_notify (confirming _) = true

abbrev pub on_stage : Member → Packet → Stage → Option Member
on_stage m p (confirming received) =
    some (record m { stage = confirming (on_confirmation received p) })
on_stage m p outside = none
on_stage m p (notifying _) = none
on_stage m p sleeping = none

-- What the receiving thread does with a packet. `none` is the exception for a packet that no
-- subscription takes.
unfoldable pub on_condition_packet : Bytes → Member → Packet → Option (Member × List Delivery)
on_condition_packet name m p =
    if takes_wait m.condition p
    then some (record m { condition = on_wait m.condition p }, [])
    else if takes_wait_end m.condition p
    then some
        (record m { condition = (on_wait_end m.condition p).0 }, (on_wait_end m.condition p).1)
    else if awaits_notify m.stage && takes_notify name p
    then some (m, [])
    else if takes_confirmation name p
    then (elim (on_stage m p m.stage) [ none ↦ none | some m' ↦ some (m', []) ])
    else none

abbrev pub with_time : Condition → ℕ → Condition
with_time a t = record a { communicator = record a.communicator { current_lamport_time = t } }

-- One step of process `i` of `n` that may send: how it goes on, and what it sends. `owned` is whether it
-- owns the mutex.
pub data Act (name : Bytes) (owned : Bool) (m : Member) : Member → List Delivery → Type 0 where
  find_one :
      {recipient : ℕ}
      → owned ≡ true
      → m.stage ≡ outside
      → first_source (waiting name m.condition) ≡ recipient ∷ []
      → Act name owned m
          (record { condition = touch name m.condition; stage = notifying (recipient ∷ []) })
          []
  find_none :
      owned ≡ true
      → m.stage ≡ outside
      → first_source (waiting name m.condition) ≡ []
      → Act name owned m (record m { condition = touch name m.condition }) []
  find_all :
      owned ≡ true
      → m.stage ≡ outside
      → is_empty m.condition.conditional_waits ≡ false
      → Act name owned m
          (record {
            condition = touch name m.condition;
            stage = notifying (sources (waiting name m.condition));
          })
          []
  notify :
      {recipients : List ℕ}
      → m.stage ≡ notifying recipients
      → Act name owned m
          (record {
            condition = record m.condition {
              communicator = (send m.condition.communicator cond_notify name recipients).0;
            };
            stage = outside;
          })
          (send m.condition.communicator cond_notify name recipients).2
  start_wait :
      owned ≡ true
      → m.stage ≡ outside
      → Act name owned m
          (record { condition = (begin_wait m.condition name).0; stage = sleeping })
          (begin_wait m.condition name).1
  stop_wait :
      owned ≡ true
      → m.stage ≡ sleeping
      → Act name owned m
          (record { condition = (end_wait m.condition name).0; stage = confirming [] })
          (end_wait m.condition name).1
  confirmed :
      {received : List Packet}
      → m.stage ≡ confirming received
      → are_confirmations_complete m.condition received ≡ true
      → Act name owned m (record m { stage = outside }) []
  tick : (t : ℕ) → Act name owned m (record m { condition = with_time m.condition t }) []

-- A process may leave the monitor, or sleep in it.
abbrev pub may_leave : Stage → Bool
may_leave outside = true
may_leave (notifying _) = false
may_leave sleeping = true
may_leave (confirming _) = false

abbrev pub owns : Option ℕ → ℕ → Bool
owns none i = false
owns (some j) i = j == i

abbrev pub update : (ℕ → Member) → ℕ → Member → ℕ → Member
update f i m j = if i == j then m else f j

pub data Step (name : Bytes) (n : ℕ) (s : System) : System → Type 0 where
  enter : (i : ℕ) → i < n → s.owner ≡ none → Step name n s (record s { owner = some i })
  leave :
      (i : ℕ)
      → s.owner ≡ some i
      → may_leave (s.member i).stage ≡ true
      → Step name n s (record s { owner = none })
  act :
      (i : ℕ) {m : Member} {out : List Delivery}
      → i < n
      → Act name (owns s.owner i) (s.member i) m out
      → Step name n s (record s { member = update s.member i m; channel = post s.channel i out })
  handle :
      (i j : ℕ) {p : Packet} {rest : List Packet} {m : Member} {out : List Delivery}
      → i < n
      → j < n
      → s.channel j i ≡ p ∷ rest
      → on_condition_packet name (s.member i) p ≡ some (m, out)
      → Step name n s (record s {
        member = update s.member i m;
        channel = post (take_from s.channel j i rest) i out;
      })

-- Processes that have registered the condition variable.
abbrev pub start_member : Bytes → ℕ → ℕ → Member
start_member name n i = record {
  condition = record {
    registered_cvs = name ∷ [];
    conditional_waits = [];
    communicator = init i n;
  };
  stage = outside;
}

pub data Reach (name : Bytes) (n : ℕ) : System → Type 0 where
  start : Reach name n (record { member = start_member name n; channel = λ i j. []; owner = none })
  later : {s t : System} → Reach name n s → Step name n s t → Reach name n t
