-- ===== src/Tests/Settled.antt =====
-- Two processes that run the exclusion algorithm to an end.
use distributed_monitor.Base.{
  ℕ, zero, suc, ◌+◌, ◌≤◌, ◌<◌, ◌≡◌, refl, subst, ap, true, false, List, [], ◌∷◌, none, arith, Bytes,
  bytes_eq,
}
use distributed_monitor.Base.Assoc
use distributed_monitor.Base.Names
use distributed_monitor.Communication.Packet.{insert, packet_eq, Packet}
use distributed_monitor.Communication.Clock.{
  init, other_ids, send, send_one, send_others, tick, merge, accept,
}
use distributed_monitor.Exclusion.Algorithm.{
  takes_request, process_request, can_send_agreement, queue, takes_agreement, add_agreement,
  are_agreements_complete, send_agreement, defer,
}
use distributed_monitor.Exclusion.System.{
  Owns, Main, running, acquiring, releasing, System, act, receive, acquire, acquired, handled,
  Reach, start, later, on_packet,
}
use distributed_monitor.Exclusion.Settled.{Run, begin, next, work}
use distributed_monitor.Exclusion.Settled.Work.{Run-work}
use distributed_monitor.Exclusion.Settled.Search.{IsPatient}
use distributed_monitor.Exclusion.Settled.Registered.{AreRegistered}
use distributed_monitor.Exclusion.Settled.Served.{AreServed, IsSettled-AreServed, idle-IsSettled}
use distributed_monitor.Exclusion.Settled.Owned.{waiting-IsOwned}

abbrev name : Bytes
name = 109 ∷ []

abbrev names : List Bytes
names = name ∷ []

-- Process 0 has asked.
abbrev asked : (s : System) × Reach names 2 1 s
unfolding queue send_others send tick Assoc.find Assoc.assign accept merge init other_ids
asked = (_, later start (act 0 (omega arith) (acquire name refl refl)))

-- Process 1 grants the request, and process 0 acquires the mutex.
abbrev granted : (t : System) × Run 2 asked.0 5 t
unfolding queue send_others send tick Assoc.find Assoc.assign accept merge init other_ids on_packet
    takes_request Names.contains process_request can_send_agreement send_agreement send_one
    takes_agreement add_agreement insert packet_eq are_agreements_complete bytes_eq
granted = (
  _,
  next
      (next
        (next
          (next (next begin (receive 1 0 (omega arith) (omega arith) refl refl) refl)
            (act 1 (omega arith) (handled refl refl refl)) refl)
          (receive 0 1 (omega arith) (omega arith) refl refl) refl)
        (act 0 (omega arith) (handled refl refl refl)) refl)
      (act 0 (omega arith) (acquired refl refl)) refl,
)

Run-work_example : 5 + work 2 granted.0 ≤ work 2 asked.0
Run-work_example = Run-work granted.1

abbrev named : Main → Bytes
named running = []
named (acquiring other agreements) = other
named (releasing other rest) = other

registered : AreRegistered names 2 asked.0
unfolding queue send_others send tick Assoc.find Assoc.assign accept merge init other_ids on_packet
    takes_request Names.contains process_request can_send_agreement send_agreement send_one
    takes_agreement add_agreement insert packet_eq are_agreements_complete bytes_eq
registered zero li other ag e = subst (λ z. Names.contains names z ≡ true) (ap named e) refl
registered (suc zero) li other ag e = absurd (cc)
registered (suc (suc i)) li other ag e = absurd (omega arith)

waiting-IsOwned_example :
    (m : ℕ) × (u : System) × Run 2 asked.0 m u × (j : ℕ) × (j < 2) × Owns name (u.process j)
unfolding queue send_others send tick Assoc.find Assoc.assign accept merge init other_ids on_packet
    takes_request Names.contains process_request can_send_agreement send_agreement send_one
    takes_agreement add_agreement insert packet_eq are_agreements_complete bytes_eq
waiting-IsOwned_example =
    waiting-IsOwned name 0 [] (omega arith) (omega arith) asked.1 registered (omega arith) refl
      begin

-- Process 1 has asked after process 0 has acquired the mutex.
abbrev rivals : (s : System) × Reach names 2 7 s
unfolding queue send_others send tick Assoc.find Assoc.assign accept merge init other_ids on_packet
    takes_request Names.contains process_request can_send_agreement send_agreement send_one
    takes_agreement add_agreement insert packet_eq are_agreements_complete bytes_eq
rivals = (
  _,
  later
      (later
        (later
          (later
            (later (later asked.1 (receive 1 0 (omega arith) (omega arith) refl refl))
              (act 1 (omega arith) (handled refl refl refl)))
            (receive 0 1 (omega arith) (omega arith) refl refl))
          (act 0 (omega arith) (handled refl refl refl)))
        (act 0 (omega arith) (acquired refl refl)))
      (act 1 (omega arith) (acquire name refl refl)),
)

-- Process 0 puts the request of process 1 off.
abbrev put_off : (t : System) × Run 2 rivals.0 2 t
unfolding queue send_others send tick Assoc.find Assoc.assign accept merge init other_ids on_packet
    takes_request Names.contains process_request can_send_agreement send_agreement send_one
    takes_agreement add_agreement insert packet_eq are_agreements_complete bytes_eq defer Assoc.at
put_off = (
  _,
  next (next begin (receive 0 1 (omega arith) (omega arith) refl refl) refl)
      (act 0 (omega arith) (handled refl refl refl)) refl,
)

rivals_registered : AreRegistered names 2 rivals.0
unfolding queue send_others send tick Assoc.find Assoc.assign accept merge init other_ids on_packet
    takes_request Names.contains process_request can_send_agreement send_agreement send_one
    takes_agreement add_agreement insert packet_eq are_agreements_complete bytes_eq
rivals_registered zero li other ag e = absurd (cc)
rivals_registered (suc zero) li other ag e =
    subst (λ z. Names.contains names z ≡ true) (ap named e) refl
rivals_registered (suc (suc i)) li other ag e = absurd (omega arith)

put_off-channels : (i j : ℕ) → i < 2 → j < 2 → put_off.0.channel i j ≡ []
unfolding queue send_others send tick Assoc.find Assoc.assign accept merge init other_ids on_packet
    takes_request Names.contains process_request can_send_agreement send_agreement send_one
    takes_agreement add_agreement insert packet_eq are_agreements_complete bytes_eq defer Assoc.at
put_off-channels zero zero li lj = refl
put_off-channels zero (suc zero) li lj = refl
put_off-channels (suc zero) zero li lj = refl
put_off-channels (suc zero) (suc zero) li lj = refl
put_off-channels (suc (suc i)) j li lj = absurd (omega arith)
put_off-channels zero (suc (suc j)) li lj = absurd (omega arith)
put_off-channels (suc zero) (suc (suc j)) li lj = absurd (omega arith)

put_off-hands : (i : ℕ) → i < 2 → (put_off.0.process i).hand ≡ none
unfolding queue send_others send tick Assoc.find Assoc.assign accept merge init other_ids on_packet
    takes_request Names.contains process_request can_send_agreement send_agreement send_one
    takes_agreement add_agreement insert packet_eq are_agreements_complete bytes_eq defer Assoc.at
put_off-hands zero li = refl
put_off-hands (suc zero) li = refl
put_off-hands (suc (suc i)) li = absurd (omega arith)

abbrev held : Main → List Packet
held running = []
held (acquiring other agreements) = agreements
held (releasing other rest) = rest

put_off-IsPatient : (i : ℕ) → i < 2 → IsPatient (put_off.0.process i)
unfolding queue send_others send tick Assoc.find Assoc.assign accept merge init other_ids on_packet
    takes_request Names.contains process_request can_send_agreement send_agreement send_one
    takes_agreement add_agreement insert packet_eq are_agreements_complete bytes_eq defer Assoc.at
put_off-IsPatient zero li = record { free = refl; lacks = λ other ag e. absurd (cc) }
put_off-IsPatient (suc zero) li = record {
  free = refl;
  lacks = λ other ag e.
      subst (λ z. are_agreements_complete (put_off.0.process 1).exclusion z ≡ false) (ap held e)
        refl;
}
put_off-IsPatient (suc (suc i)) li = absurd (omega arith)

IsSettled-AreServed_example : AreServed 2 put_off.0
unfolding queue send_others send tick Assoc.find Assoc.assign accept merge init other_ids on_packet
    takes_request Names.contains process_request can_send_agreement send_agreement send_one
    takes_agreement add_agreement insert packet_eq are_agreements_complete bytes_eq defer Assoc.at
IsSettled-AreServed_example =
    IsSettled-AreServed (omega arith) (omega arith) rivals.1 rivals_registered put_off.1 (
      idle-IsSettled 2 put_off.0 (record {
        quiet = record { channels = put_off-channels; hands = put_off-hands };
        patient = put_off-IsPatient;
      }))
