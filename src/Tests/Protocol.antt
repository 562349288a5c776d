-- ===== src/Tests/Protocol.antt =====
-- Two processes that share a condition variable.
use distributed_monitor.Base.{◌≡◌, refl, List, [], ◌∷◌, some, arith, Bytes}
use distributed_monitor.Communication.Packet.{Packet, cond_wait}
use distributed_monitor.Communication.Clock.{Delivery, init, other_ids, send, send_others, tick}
use distributed_monitor.Condition.Algorithm.{begin_wait}
use distributed_monitor.Condition.System.{
  Member, System, start_wait, enter, act, Reach, start, later, start_member, on_condition_packet,
}
use distributed_monitor.Condition.Subscribed.{on_condition_packet-total}

abbrev name : Bytes
name = 99 ∷ []

-- Process 0 waits, and its COND_WAIT is on the way to process 1.
abbrev waits : (s : System) × Reach name 2 s
waits = (
  _,
  later (later start (enter 0 (omega arith) refl)) (act 0 (omega arith) (start_wait refl refl)),
)

abbrev call : Packet
call = record { lamport_time = 1; source = 0; message_type = cond_wait; message = name }

on_condition_packet-total_example :
    (r : Member × List Delivery) × (on_condition_packet name (waits.0.member 1) call ≡ some r)
unfolding begin_wait send_others send tick init other_ids
on_condition_packet-total_example =
    on_condition_packet-total (omega arith) waits.1 1 0 (omega arith) (omega arith) refl

-- Process 0 at its start, with process 1 among those that wait.
abbrev notifier : Member
notifier = record (start_member name 2 0) {
  condition = record (start_member name 2 0).condition {
    conditional_waits = (name, record call { source = 1 } ∷ []) ∷ [];
  };
}
