-- ===== src/Tests/Fresh.antt =====
-- Two processes of one monitor: process 0 comes to own its mutex.
use distributed_monitor.Base.{◌≡◌, refl, true, false, [], ◌∷◌, arith, Bytes, count, bytes_eq}
use distributed_monitor.Base.Assoc
use distributed_monitor.Base.Names
use distributed_monitor.Communication.Packet.{insert, packet_eq}
use distributed_monitor.Communication.Clock.{
  init, other_ids, send, send_one, send_others, tick, merge, accept,
}
use distributed_monitor.Exclusion.Algorithm.{
  takes_request, process_request, can_send_agreement, queue, takes_agreement, add_agreement,
  are_agreements_complete, send_agreement,
}
use distributed_monitor.Exclusion.System.{System, Owns, acquire, acquired, handled, on_packet}
use distributed_monitor.Exclusion.Defs.{in_hand}
use distributed_monitor.Monitor.Fresh.{Run, begins, acts, receives, synced}
use distributed_monitor.Monitor.Fresh.Current.{owner_none_on_the_way}

abbrev name : Bytes
name = 109 ∷ []

nothing_saved : {A : Type 0} → false ≡ true → A
nothing_saved h = cc

-- It has asked, process 1 has granted the request, and the agreement is in.
abbrev entered : (s : System) × Run (name ∷ []) 2 name 6 s
unfolding queue send_others send tick Assoc.find Assoc.assign accept merge init other_ids on_packet
    takes_request Names.contains process_request can_send_agreement send_agreement send_one
    takes_agreement add_agreement insert packet_eq are_agreements_complete bytes_eq
entered = (
  _,
  acts 0
      (acts 0
        (receives 0 1
          (acts 1
            (receives 1 0
              (acts 0 begins (omega arith) (acquire name refl refl) (λ h. nothing_saved h))
              (omega arith) (omega arith) refl refl)
            (omega arith) (handled refl refl refl) (λ h. nothing_saved h))
          (omega arith) (omega arith) refl refl)
        (omega arith) (handled refl refl refl) (λ h. nothing_saved h))
      (omega arith) (acquired refl refl) (λ h. nothing_saved h),
)

abbrev owner : Owns name (entered.0.process 0)
unfolding queue send_others send tick Assoc.find Assoc.assign accept merge init other_ids on_packet
    takes_request Names.contains process_request can_send_agreement send_agreement send_one
    takes_agreement add_agreement insert packet_eq are_agreements_complete bytes_eq
owner = record { stamp = 1; queued = refl; settled = refl }

owner_none_on_the_way_example :
    (count (synced 1) (entered.0.channel 1 0) ≡ 0)
    × (in_hand (synced 1) (entered.0.process 0).hand ≡ 0)
owner_none_on_the_way_example =
    owner_none_on_the_way (omega arith) (omega arith) entered.1 0 1 (omega arith) (omega arith)
      (λ e. absurd (omega (arith, e))) owner
