-- ===== src/Examples/Shared.antt =====
-- The buffers as the shared variables of a monitor: what one process has when it leaves the monitor,
-- another has after it has handled the message.
use distributed_monitor.Base.{
  ℕ, ◌≤◌, ◌<◌, ◌≡◌, ◌≢◌, ap, ◌∙◌, true, List, ◌∷◌, some, length, Bytes, bytes_eq_refl,
}
use distributed_monitor.Communication.Packet.{sync, Packet}
use distributed_monitor.Communication.Clock.{send, send_others, other_ids}
use distributed_monitor.Exclusion.Algorithm.{Exclusion}
use distributed_monitor.Exclusion.Network.{sent_to}
use distributed_monitor.Monitor.Sync.{Shared, takes_sync, on_sync, leave, pack_sync_message}
use distributed_monitor.Monitor.Sync.Laws.{takes_sync-pack, leave-state_first}
use distributed_monitor.Examples.Ring
use distributed_monitor.Examples.Ring.{Ring}
use distributed_monitor.Examples.Ring.Refine.{IsValid, restore-save}
use distributed_monitor.Examples.Members.{
  simple_two_cv_save_state, simple_two_cv_restore_state, buffer_simple_save_state,
  buffer_simple_restore_state, unlock_first_save_state, unlock_first_restore_state,
  two_cv_save_state, two_cv_restore_state, buffer_adv_save_state, buffer_adv_restore_state,
}
use distributed_monitor.Examples.Queue
use distributed_monitor.Examples.Queue.{Buffer, Serializer}

-- The first packet that goes to `b` is for the monitor `name`, and turns `w` into `v`.
abbrev pub Transfers : {V : Type 0} → Shared V → Exclusion → Bytes → ℕ → V → V → V → Type 0
Transfers shared a name b v w v' =
    (p : Packet) × (rest : List Packet) × (sent_to b (leave shared a name v).1 ≡ p ∷ rest)
    × (takes_sync name p ≡ some true)
    × (on_sync shared p w ≡ some v')

leave-Transfers :
    {V : Type 0} (shared : Shared V) (a : Exclusion) (name : Bytes) (v w : V) (n b : ℕ)
    → length name ≤ 127
    → a.communicator.other_processes ≡ other_ids n 0 a.communicator.my_process_id
    → b < n
    → b ≢ a.communicator.my_process_id
    → Transfers shared a name b v w (shared.restore_state (shared.save_state v) w)
unfolding send_others send
leave-Transfers shared a name v w n b small others lt ne =
    let first = leave-state_first shared a name v n b others lt ne in
    let sent = send_others a.communicator sync (pack_sync_message name (shared.save_state v)) in
    let taken = takes_sync-pack shared w v name name sent.1 small in
    (_, _, first.0, taken.0 ∙ ap some (bytes_eq_refl name), taken.1)

abbrev pub ring_shared : Shared Ring
ring_shared = record { save_state = Ring.save_state; restore_state = Ring.restore_state }

abbrev pub simple_two_cv_shared : Shared Ring
simple_two_cv_shared = record {
  save_state = simple_two_cv_save_state;
  restore_state = simple_two_cv_restore_state;
}

abbrev pub buffer_simple_shared : Shared Ring
buffer_simple_shared = record {
  save_state = buffer_simple_save_state;
  restore_state = buffer_simple_restore_state;
}

module _ {T : Type 0} (serializer : Serializer T) where
  abbrev pub unlock_first_shared : Shared (Buffer T)
  unlock_first_shared = record {
    save_state = unlock_first_save_state serializer;
    restore_state = unlock_first_restore_state serializer;
  }

  abbrev pub two_cv_shared : Shared (Buffer T)
  two_cv_shared = record {
    save_state = two_cv_save_state serializer;
    restore_state = two_cv_restore_state serializer;
  }

  abbrev pub buffer_adv_shared : Shared (Buffer T)
  buffer_adv_shared = record {
    save_state = buffer_adv_save_state serializer;
    restore_state = buffer_adv_restore_state serializer;
  }

-- A process that leaves the monitor of an array program with a valid buffer sends each other process
-- first a message that the monitor of that name takes, and by which a valid buffer there becomes the
-- very same. The name has at most 127 bytes.
pub ring_leave-Transfers :
    (a : Exclusion) (name : Bytes) (r other : Ring) (n b : ℕ)
    → length name ≤ 127
    → a.communicator.other_processes ≡ other_ids n 0 a.communicator.my_process_id
    → b < n
    → b ≢ a.communicator.my_process_id
    → IsValid r
    → IsValid other
    → Transfers ring_shared a name b r other r
ring_leave-Transfers a name r other n b small others lt ne valid valid' =
    let (p, rest, out, taken, made) =
      leave-Transfers ring_shared a name r other n b small others lt ne in
    (p, rest, out, taken, made ∙ ap some (restore-save r other valid valid'))

module _ {T : Type 0} (serializer : Serializer T) where
  abbrev pub queue_shared : Shared (Buffer T)
  queue_shared = record {
    save_state = Queue.save_state serializer;
    restore_state = Queue.restore_state serializer;
  }

  -- A process that leaves the monitor of a queue program sends each other process first a message
  -- that the monitor of that name takes, and by which the queue there becomes the same, while the
  -- maximal size there stays. The serializer reads what it has written, and the name has at most
  -- 127 bytes.
  pub queue_leave-Transfers :
      (a : Exclusion) (name : Bytes) (v w : Buffer T) (n b : ℕ)
      → length name ≤ 127
      → a.communicator.other_processes ≡ other_ids n 0 a.communicator.my_process_id
      → b < n
      → b ≢ a.communicator.my_process_id
      → Transfers queue_shared a name b v w (record w { queue = v.queue })
  queue_leave-Transfers a name v w n b small others lt ne =
      let (p, rest, out, taken, made) =
        leave-Transfers queue_shared a name v w n b small others lt ne in
      (p, rest, out, taken, made ∙ ap some restored)
    where
      restored :
          queue_shared.restore_state (queue_shared.save_state v) w ≡ record w { queue = v.queue }
      restored =
          unfold Queue.save_state Queue.restore_state in
          ap (λ q. record w { queue = q }) (serializer.deserialize-serialize v.queue)
