-- ===== src/Tests/Monitor.antt =====
-- A monitor of two processes whose shared variable is a string, over distributed/.
use distributed_monitor.Base.{
  ℕ, ◌≡◌, refl, true, false, List, [], ◌∷◌, some, arith, All, Bytes, bytes_eq,
}
use distributed_monitor.Communication.Packet.{mutex_request, sync, Packet}
use distributed_monitor.Communication.Clock.{send_others, other_ids}
use distributed_monitor.Exclusion.Algorithm.{Exclusion, release_mutex}
use distributed_monitor.Exclusion.Network.{sent_to}
use distributed_monitor.Monitor.Mutex.{Mutex}
use distributed_monitor.Monitor.Mutex.Laws.{
  registered, recording, Use, use_lock, use_unlock, use_try_lock, run, holder, run-alternates,
}
use distributed_monitor.Monitor.Sync.{
  pack_sync_message, accepts_name, takes_sync, Shared, on_sync, leave,
}
use distributed_monitor.Monitor.Sync.Laws.{
  IsAgreementPacket, takes_sync-pack, takes_sync-long, leave-state_first,
}

abbrev name : Bytes
name = 109 ∷ []

abbrev free : Mutex
free = record { name = name; owned = false }

abbrev calls : List Use
calls = use_try_lock ∷ use_try_lock ∷ use_unlock ∷ use_unlock ∷ use_lock ∷ []

run-alternates_example :
    holder name (run recording calls (free, registered name ∷ [])).1
    ≡ some (run recording calls (free, registered name ∷ [])).0.owned
run-alternates_example = run-alternates calls free (registered name ∷ []) refl refl

abbrev shared : Shared Bytes
shared = record { save_state = λ v. v; restore_state = λ s v. s }

abbrev state : Bytes
state = 1 ∷ 2 ∷ []

abbrev request : Packet
request = record { lamport_time = 3; source = 1; message_type = mutex_request; message = name }

abbrev synced : Packet
synced = record request { message_type = sync; message = pack_sync_message name state }

takes_sync-pack_example :
    (takes_sync (110 ∷ []) synced ≡ some (bytes_eq name (110 ∷ [])))
    × (on_sync shared synced [] ≡ some state)
takes_sync-pack_example = takes_sync-pack shared [] state (110 ∷ []) name request (omega arith)

abbrev long_name : ℕ → Bytes
long_name ℕ.zero = []
long_name (ℕ.suc k) = 97 ∷ long_name k

takes_sync-long_example :
    (accepts_name (long_name 128) ≡ true)
    × (takes_sync (long_name 128) (record request {
      message_type = sync;
      message = pack_sync_message (long_name 128) state;
    })
        ≡ some false)
takes_sync-long_example =
    takes_sync-long (long_name 128) 1 (2 ∷ []) request (omega arith) (omega arith) (omega arith)

-- It holds the mutex and has put off the request of process 1.
abbrev holding : Exclusion
holding = record {
  registered_mutexes = name ∷ [];
  queued_mutexes = (name, 2) ∷ [];
  received_requests = (name, request ∷ []) ∷ [];
  communicator = record {
    my_process_id = 0;
    number_of_processes = 2;
    other_processes = 1 ∷ [];
    current_lamport_time = 5;
  };
}

leave-state_first_example :
    let sent = send_others holding.communicator sync (pack_sync_message name state) in
    let released = release_mutex (record holding { communicator = sent.0 }) name in
    (sent_to 1 (leave shared holding name state).1 ≡ sent.1 ∷ sent_to 1 released.1)
    × All IsAgreementPacket (sent_to 1 released.1)
    × ((leave shared holding name state).0 ≡ released.0)
unfolding other_ids
leave-state_first_example =
    leave-state_first shared holding name state 2 1 refl (omega arith) (λ e. absurd (omega arith))
