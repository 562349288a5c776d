-- ===== src/Tests/Condition.antt =====
-- A process that knows of two others that wait, over
-- algorithms/DistributedConditionVariableAlgorithm.h.
use distributed_monitor.Base.{
  ℕ, ◌≡◌, refl, Bool, true, [], ◌∷◌, arith, ◌==◌, if◌then◌else◌, count, any, Bytes, bytes_eq,
}
use distributed_monitor.Base.Assoc
use distributed_monitor.Communication.Packet.{
  cond_wait, cond_wait_end, cond_wait_end_confirm, Packet, insert_ordered, insert, packet_eq,
}
use distributed_monitor.Communication.Clock.{tick, send, send_others}
use distributed_monitor.Exclusion.Network.{sent_to}
use distributed_monitor.Condition.Algorithm.{
  Condition, waiting, on_wait, on_wait_end, notify_one, notify_all,
}
use distributed_monitor.Exclusion.Defs.{weigh}
use distributed_monitor.Condition.Algorithm.{
  begin_wait, end_wait, takes_confirmation, on_confirmation, are_confirmations_complete,
}
use distributed_monitor.Condition.Wait.{Waiter, Run, wait-answered}
use distributed_monitor.Condition.Waiters.{IsAscending}
use distributed_monitor.Condition.Laws.{
  on_wait-IsAscending, on_wait-same_stamp, notify_one-wait_end,
}
use distributed_monitor.Condition.Notices.{
  notification, NotifiesEarliest, notify_one-earliest, notify_all-each,
}

abbrev name : Bytes
name = 99 ∷ []

abbrev waiter : ℕ → ℕ → Packet
waiter t i = record { lamport_time = t; source = i; message_type = cond_wait; message = name }

abbrev known : Condition
known = record {
  registered_cvs = name ∷ [];
  conditional_waits = (name, waiter 4 2 ∷ waiter 6 1 ∷ []) ∷ [];
  communicator = record {
    my_process_id = 0;
    number_of_processes = 4;
    other_processes = 1 ∷ 2 ∷ 3 ∷ [];
    current_lamport_time = 8;
  };
}

abbrev known-IsAscending : IsAscending (waiting name known)
unfolding Assoc.at Assoc.find bytes_eq
known-IsAscending = ((omega arith, tt), (tt, tt))

on_wait-IsAscending_example :
    (waiting name (on_wait known (waiter 5 3)) ≡ (
      if bytes_eq name name
      then insert_ordered (waiting name known) (waiter 5 3)
      else waiting name known))
    × IsAscending (waiting name (on_wait known (waiter 5 3)))
on_wait-IsAscending_example = on_wait-IsAscending known (waiter 5 3) name known-IsAscending

on_wait-same_stamp_example : waiting name (on_wait known (waiter 6 3)) ≡ waiting name known
unfolding Assoc.at Assoc.find bytes_eq
on_wait-same_stamp_example =
    on_wait-same_stamp known (waiter 6 3) known-IsAscending (λ e. absurd (omega arith))

abbrev ended : Packet
ended = record (waiter 9 2) { message_type = cond_wait_end }

-- A process that knows of nobody handles the COND_WAITs of processes 1 and 2.
abbrev unaware : Condition
unaware = record known { conditional_waits = [] }

notify_one-earliest_example : NotifiesEarliest unaware name (waiter 6 1 ∷ waiter 4 2 ∷ [])
unfolding Assoc.at Assoc.find
notify_one-earliest_example = notify_one-earliest unaware name (waiter 6 1 ∷ waiter 4 2 ∷ []) refl

notify_one-wait_end_example : (notify_one (on_wait_end known ended).0 name).1 ≡ []
notify_one-wait_end_example = notify_one-wait_end known ended

notify_all-each_example : sent_to 1 (notify_all known name).1 ≡ (
    if any (λ p. p.source == 1) (waiting name known)
    then notification known.communicator name ∷ []
    else [])
notify_all-each_example = notify_all-each known name 1

-- Process 0 of two waits for the number 3, sleeps once, and is confirmed by process 1.
abbrev pair : Condition
pair = record known {
  communicator = record {
    my_process_id = 0;
    number_of_processes = 2;
    other_processes = 1 ∷ [];
    current_lamport_time = 8;
  };
}

abbrev is_three : ℕ → Bool
is_three v = v == 3

abbrev answer : Packet
answer = record {
  lamport_time = 12;
  source = 1;
  message_type = cond_wait_end_confirm;
  message = name;
}

abbrev waited : (w : Waiter ℕ) × Run name is_three 2 0 pair 0 w
unfolding begin_wait end_wait send_others send tick takes_confirmation on_confirmation insert
    packet_eq are_confirmations_complete bytes_eq
waited = (
  _,
  Run.returned
      (Run.confirmed answer (Run.ended (Run.woken 3 (Run.slept Run.begun refl refl) refl) refl refl)
        refl refl (omega arith) (λ e. absurd (omega arith)))
      refl refl,
)

wait-answered_example :
    (is_three waited.0.variables ≡ true)
    × (waited.0.owned ≡ true)
    × (count (weigh cond_wait_end_confirm name 1) (answer ∷ []) ≡ 1)
unfolding begin_wait end_wait send_others send tick takes_confirmation on_confirmation insert
    packet_eq are_confirmations_complete bytes_eq
wait-answered_example =
    wait-answered name is_three 2 0 pair 0 1 (omega arith) refl (omega arith) (omega arith)
      (λ e. absurd (omega arith)) waited.1 refl
