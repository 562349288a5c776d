-- ===== src/Tests/Memory.antt =====
-- Two processes of one monitor with the buffer of DistributedProdConsSimple.cpp: process 0 puts a
-- byte into it, and then process 1 comes to own the mutex.
use distributed_monitor.Base.{
  count, ◌≤◌, ◌==◌, if◌then◌else◌, ℕ, ◌≡◌, refl, true, false, [], ◌∷◌, arith, inl, none, Bytes,
  bytes_eq,
}
use distributed_monitor.Base.Assoc
use distributed_monitor.Base.Names
use distributed_monitor.Communication.Packet.{sync, cond_wait, insert, packet_eq}
use distributed_monitor.Communication.Clock.{
  init, other_ids, send, send_one, send_others, tick, merge, accept,
}
use distributed_monitor.Exclusion.Algorithm.{
  takes_request, process_request, can_send_agreement, queue, takes_agreement, add_agreement,
  are_agreements_complete, send_agreement, dequeue,
}
use distributed_monitor.Condition.Algorithm.{begin_wait}
use distributed_monitor.Exclusion.System.{
  System, Process, Owns, busy_with, acquire, acquired, release, released, handled, other_send,
  on_packet,
}
use distributed_monitor.Examples.Ring.{Ring, fresh, save_state, restore_state}
use distributed_monitor.Examples.Ring.Refine.{IsValid, restore-save}
use distributed_monitor.Examples.Shared.{ring_shared}
use distributed_monitor.Monitor.Sync.{pack_sync_message, takes_sync, on_sync}
use distributed_monitor.Monitor.Memory.{
  Memory, Shares, begins, writes, acts, receives, restored, set_variables,
}
use distributed_monitor.Monitor.Memory.Latest.{owner-latest}
use distributed_monitor.Monitor.Memory.Unsaved.{Waits, stays, goes, others, takes, waits-written}

abbrev name : Bytes
name = 109 ∷ []

abbrev ring : Ring
ring = record { buffer = 7 ∷ 0 ∷ 0 ∷ 0 ∷ 0 ∷ []; get_index = 0; put_index = 1; count = 1 }

abbrev ring-IsValid : IsValid ring
ring-IsValid = record { whole = refl; get_in = omega arith; count_in = omega arith; put_at = refl }

abbrev fresh-IsValid : IsValid fresh
fresh-IsValid = record { whole = refl; get_in = omega arith; count_in = omega arith; put_at = refl }

nothing_saved : {A : Type 0} → false ≡ true → A
nothing_saved h = cc

once_one : (b : ℕ) → count (λ r. if r == b then 1 else 0) (1 ∷ []) ≤ 1
once_one b = ground arith

-- Process 0 has acquired the mutex.
abbrev entered : (x : Memory Ring) × Shares ring_shared name IsValid (name ∷ []) 6 x
unfolding queue send_others send tick Assoc.find Assoc.assign accept merge init other_ids on_packet
    takes_request Names.contains process_request can_send_agreement send_agreement send_one
    takes_agreement add_agreement insert packet_eq are_agreements_complete bytes_eq dequeue
    Assoc.erase Assoc.at pack_sync_message restored takes_sync on_sync save_state restore_state
entered = (
  _,
  acts 0
      (acts 0
        (receives 0 1
          (acts 1
            (receives 1 0
              (acts 0 (begins fresh fresh-IsValid) (omega arith) (acquire name refl refl)
                (λ h. nothing_saved h) (λ u. nothing_saved u))
              (omega arith) (omega arith) refl refl)
            (omega arith) (handled refl refl refl) (λ h. nothing_saved h) (λ u. nothing_saved u))
          (omega arith) (omega arith) refl refl)
        (omega arith) (handled refl refl refl) (λ h. nothing_saved h) (λ u. nothing_saved u))
      (omega arith) (acquired refl refl) (λ h. nothing_saved h) (λ u. nothing_saved u),
)

-- It writes, saves, and gives the mutex up.
abbrev left : (x : Memory Ring) × Shares ring_shared name IsValid (name ∷ []) 9 x
unfolding queue send_others send tick Assoc.find Assoc.assign accept merge init other_ids on_packet
    takes_request Names.contains process_request can_send_agreement send_agreement send_one
    takes_agreement add_agreement insert packet_eq are_agreements_complete bytes_eq dequeue
    Assoc.erase Assoc.at pack_sync_message restored takes_sync on_sync save_state restore_state
left = (
  _,
  acts 0
      (acts 0
        (acts 0
          (writes 0 ring entered.1 (omega arith)
            (record { stamp = 1; queued = refl; settled = refl }) ring-IsValid)
          (omega arith)
          (other_send sync (pack_sync_message name (save_state ring)) (1 ∷ [])
            ((omega arith, λ e. absurd (omega (arith, e))), tt) once_one refl refl)
          (λ h. (record { stamp = 1; queued = refl; settled = refl }, (refl, tt)))
          (λ u o. record { stamp = 1; queued = refl; settled = refl }))
        (omega arith) (release name refl refl) (λ h. nothing_saved h) (λ u. nothing_saved u))
      (omega arith) (released refl) (λ h. nothing_saved h) (λ u. nothing_saved u),
)

-- Process 1 has acquired the mutex.
abbrev followed : (x : Memory Ring) × Shares ring_shared name IsValid (name ∷ []) 17 x
unfolding queue send_others send tick Assoc.find Assoc.assign accept merge init other_ids on_packet
    takes_request Names.contains process_request can_send_agreement send_agreement send_one
    takes_agreement add_agreement insert packet_eq are_agreements_complete bytes_eq dequeue
    Assoc.erase Assoc.at pack_sync_message restored takes_sync on_sync save_state restore_state
followed = (
  _,
  acts 1
      (acts 1
        (receives 1 0
          (acts 1
            (receives 1 0
              (acts 0
                (receives 0 1
                  (acts 1 (left.1) (omega arith) (acquire name refl refl) (λ h. nothing_saved h)
                    (λ u. nothing_saved u))
                  (omega arith) (omega arith) refl refl)
                (omega arith) (handled refl refl refl) (λ h. nothing_saved h)
                (λ u. nothing_saved u))
              (omega arith) (omega arith) refl refl)
            (omega arith) (handled refl refl refl) (λ h. nothing_saved h) (λ u. nothing_saved u))
          (omega arith) (omega arith) refl refl)
        (omega arith) (handled refl refl refl) (λ h. nothing_saved h) (λ u. nothing_saved u))
      (omega arith) (acquired refl refl) (λ h. nothing_saved h) (λ u. nothing_saved u),
)

owner-latest_example : followed.0.variables 1 ≡ followed.0.written
unfolding queue send_others send tick Assoc.find Assoc.assign accept merge init other_ids on_packet
    takes_request Names.contains process_request can_send_agreement send_agreement send_one
    takes_agreement add_agreement insert packet_eq are_agreements_complete bytes_eq dequeue
    Assoc.erase Assoc.at pack_sync_message restored takes_sync on_sync save_state restore_state
owner-latest_example =
    owner-latest ring_shared name IsValid (omega arith) restore-save (omega arith) followed.1 1
      (omega arith) (record { stamp = 4; queued = refl; settled = refl })

idle : {p : Process} → Assoc.find name p.exclusion.queued_mutexes ≡ none → ¬ (Owns name p)
idle h = λ o. absurd (ground (arith, o.queued))

busy : {p : Process} → busy_with name p.main ≡ true → ¬ (Owns name p)
busy h = λ o. absurd (ground (arith, o.settled))

abbrev cv : Bytes
cv = 99 ∷ []

-- Process 0 writes and waits for a condition variable, and process 1 acquires the mutex.
abbrev unsaved :
    (t : System) × (w : ℕ → Ring) × Waits ring_shared name cv 0 entered.0.system
      (set_variables ring_shared name entered.0.variables 0 ring)
      11
      t
      w
unfolding queue send_others send tick Assoc.find Assoc.assign accept merge init other_ids on_packet
    takes_request Names.contains process_request can_send_agreement send_agreement send_one
    takes_agreement add_agreement insert packet_eq are_agreements_complete bytes_eq dequeue
    Assoc.erase Assoc.at pack_sync_message restored takes_sync on_sync save_state restore_state
    begin_wait
unsaved = (
  _,
  _,
  others 1
      (others 1
        (takes 1 0
          (goes
            (takes 0 1
              (others 1
                (others 1
                  (takes 1 0
                    (goes
                      (goes
                        (goes stays (omega arith)
                          (other_send cond_wait cv (1 ∷ [])
                            ((omega arith, λ e. absurd (omega arith)), tt) once_one refl refl)
                          (
                            record {
                              registered_cvs = cv ∷ [];
                              conditional_waits = [];
                              communicator = (entered.0.system.process 0).exclusion.communicator;
                            },
                            refl,
                            inl refl,
                          ))
                        (omega arith) (release name refl refl) tt)
                      (omega arith) (released refl) tt)
                    (omega arith) (omega arith) refl refl)
                  (omega arith) (idle refl) (handled refl refl refl) nothing_saved)
                (omega arith) (idle refl) (acquire name refl refl) nothing_saved)
              (omega arith) (omega arith) refl refl)
            (omega arith) (handled refl refl refl) tt)
          (omega arith) (omega arith) refl refl)
        (omega arith) (busy refl) (handled refl refl refl) nothing_saved)
      (omega arith) (busy refl) (acquired refl refl) nothing_saved,
)

waits-written_example : unsaved.1 1 ≡ fresh
unfolding queue send_others send tick Assoc.find Assoc.assign accept merge init other_ids on_packet
    takes_request Names.contains process_request can_send_agreement send_agreement send_one
    takes_agreement add_agreement insert packet_eq are_agreements_complete bytes_eq dequeue
    Assoc.erase Assoc.at pack_sync_message restored takes_sync on_sync save_state restore_state
    begin_wait
waits-written_example =
    waits-written ring_shared name IsValid (omega arith) restore-save cv 0 1 ring (omega arith)
      entered.1 refl (omega arith) (omega arith) (λ e. absurd (omega (arith, e))) unsaved.2
      (record { stamp = 7; queued = refl; settled = refl })
