-- ===== src/Tests/Exclusion.antt =====
-- Two processes that run the exclusion algorithm of algorithms/RicartAgrawalaExclusionAlgorithm.h.
use distributed_monitor.Base.{
  zero, suc, ◌<◌, none, ℕ, ◌≡◌, refl, List, [], ◌∷◌, some, arith, Bytes, bytes_eq,
}
use distributed_monitor.Base.Assoc
use distributed_monitor.Base.Names
use distributed_monitor.Communication.Packet.{mutex_request, Packet, insert, packet_eq}
use distributed_monitor.Communication.Clock.{
  Delivery, init, other_ids, send, send_one, send_others, tick, merge, accept,
}
use distributed_monitor.Exclusion.Algorithm.{
  Exclusion, takes_request, process_request, can_send_agreement, queue, takes_agreement,
  add_agreement, are_agreements_complete, send_agreement, defer,
}
use distributed_monitor.Exclusion.System.{
  System, Process, Owns, act, receive, acquire, acquired, handled, Reach, start, later, on_packet,
}
use distributed_monitor.Exclusion.Safety.{mutual_exclusion}
use distributed_monitor.Exclusion.Handled.{on_packet-total}
use distributed_monitor.Exclusion.Algorithm.{release_mutex}
use distributed_monitor.Exclusion.System.{Main}
use distributed_monitor.Exclusion.Algorithm.{defer}
use distributed_monitor.Exclusion.Progress.{SomeCanGoOn, waiting-SomeCanGoOn}
use distributed_monitor.Exclusion.Released.{Acts, IsReleased, release_mutex-Acts}
use distributed_monitor.Exclusion.Restamped.{restamp, restamped, restamped-never_granted}

abbrev name : Bytes
name = 109 ∷ []

abbrev names : List Bytes
names = name ∷ []

-- Process 0 has asked, and process 1 has taken the request.
abbrev asked : (s : System) × Reach names 2 2 s
unfolding queue send_others send tick Assoc.find Assoc.assign accept merge init other_ids
asked = (
  _,
  later (later start (act 0 (omega arith) (acquire name refl refl)))
      (receive 1 0 (omega arith) (omega arith) refl refl),
)

-- Process 1 has granted the request, and process 0 has acquired the mutex.
abbrev owned : (s : System) × Reach names 2 6 s
unfolding queue send_others send tick Assoc.find Assoc.assign accept merge init other_ids on_packet
    takes_request Names.contains process_request can_send_agreement send_agreement send_one
    takes_agreement add_agreement insert packet_eq are_agreements_complete bytes_eq
owned = (
  _,
  later
      (later
        (later (later asked.1 (act 1 (omega arith) (handled refl refl refl)))
          (receive 0 1 (omega arith) (omega arith) refl refl))
        (act 0 (omega arith) (handled refl refl refl)))
      (act 0 (omega arith) (acquired refl refl)),
)

abbrev owner : Owns name (owned.0.process 0)
unfolding queue send_others send tick Assoc.find Assoc.assign accept merge init other_ids on_packet
    takes_request Names.contains process_request can_send_agreement send_agreement send_one
    takes_agreement add_agreement insert packet_eq are_agreements_complete bytes_eq
owner = record { stamp = 1; queued = refl; settled = refl }

mutual_exclusion_example : ◌≡◌ {A = ℕ} 0 0
mutual_exclusion_example =
    mutual_exclusion (omega arith) (omega arith) owned.1 0 0 (omega arith) (omega arith) owner owner

abbrev request : Packet
request = record { lamport_time = 1; source = 0; message_type = mutex_request; message = name }

on_packet-total_example :
    (r : Process × List Delivery) × (on_packet (asked.0.process 1) request ≡ some r)
unfolding queue send_others send tick Assoc.find Assoc.assign accept merge init other_ids
    Names.contains bytes_eq
on_packet-total_example =
    on_packet-total (omega arith) (omega arith) asked.1 1 (omega arith) refl refl

-- Process 1 has asked with stamp 4.
abbrev busy : Exclusion
busy = record {
  registered_mutexes = names;
  queued_mutexes = (name, 4) ∷ [];
  received_requests = [];
  communicator = record {
    my_process_id = 1;
    number_of_processes = 2;
    other_processes = 0 ∷ [];
    current_lamport_time = 4;
  };
}

restamped-never_granted_example :
    process_request (restamp busy request) (restamped busy request)
    ≡ (defer (restamp busy request) (restamped busy request), [])
unfolding Assoc.find bytes_eq
restamped-never_granted_example =
    restamped-never_granted busy request 4 (omega arith) (omega arith) refl (omega arith)

-- Process 0 releases the mutex that it owns.
release_mutex-Acts_example :
    IsReleased name
      (owned.0.process 0).exclusion
      (release_mutex (owned.0.process 0).exclusion name).0
      (release_mutex (owned.0.process 0).exclusion name).1
    × Acts 2
        (owned.0.process 0)
        (record (owned.0.process 0) {
          exclusion = (release_mutex (owned.0.process 0).exclusion name).0;
          main = Main.running;
        })
        (release_mutex (owned.0.process 0).exclusion name).1
unfolding queue send_others send tick Assoc.find Assoc.assign accept merge init other_ids on_packet
    takes_request Names.contains process_request can_send_agreement send_agreement send_one
    takes_agreement add_agreement insert packet_eq are_agreements_complete bytes_eq
release_mutex-Acts_example = release_mutex-Acts 2 (owned.0.process 0) name refl refl

-- Then process 1 has asked too, and process 0 has put its request off.
abbrev waiting : (s : System) × Reach names 2 9 s
unfolding queue send_others send tick Assoc.find Assoc.at Assoc.assign accept merge init other_ids
    on_packet takes_request Names.contains process_request can_send_agreement send_agreement
    send_one defer takes_agreement add_agreement insert packet_eq are_agreements_complete bytes_eq
waiting = (
  _,
  later
      (later (later owned.1 (act 1 (omega arith) (acquire name refl refl)))
        (receive 0 1 (omega arith) (omega arith) refl refl))
      (act 0 (omega arith) (handled refl refl refl)),
)

waiting-channels : (i j : ℕ) → i < 2 → j < 2 → waiting.0.channel i j ≡ []
unfolding queue send_others send tick Assoc.find Assoc.at Assoc.assign accept merge init other_ids
    on_packet takes_request Names.contains process_request can_send_agreement send_agreement
    send_one defer takes_agreement add_agreement insert packet_eq are_agreements_complete bytes_eq
waiting-channels zero zero li lj = refl
waiting-channels zero (suc zero) li lj = refl
waiting-channels (suc zero) zero li lj = refl
waiting-channels (suc zero) (suc zero) li lj = refl
waiting-channels (suc (suc i)) j li lj = absurd (omega arith)
waiting-channels zero (suc (suc j)) li lj = absurd (omega arith)
waiting-channels (suc zero) (suc (suc j)) li lj = absurd (omega arith)

waiting-hands : (i : ℕ) → i < 2 → (waiting.0.process i).hand ≡ none
unfolding queue send_others send tick Assoc.find Assoc.at Assoc.assign accept merge init other_ids
    on_packet takes_request Names.contains process_request can_send_agreement send_agreement
    send_one defer takes_agreement add_agreement insert packet_eq are_agreements_complete bytes_eq
waiting-hands zero li = refl
waiting-hands (suc zero) li = refl
waiting-hands (suc (suc i)) li = absurd (omega arith)

waiting-SomeCanGoOn_example : SomeCanGoOn 2 name waiting.0
unfolding queue send_others send tick Assoc.find Assoc.at Assoc.assign accept merge init other_ids
    on_packet takes_request Names.contains process_request can_send_agreement send_agreement
    send_one defer takes_agreement add_agreement insert packet_eq are_agreements_complete bytes_eq
waiting-SomeCanGoOn_example =
    waiting-SomeCanGoOn name (omega arith) (omega arith) waiting.1
      (record { channels = waiting-channels; hands = waiting-hands }) 1 (omega arith) [] refl
