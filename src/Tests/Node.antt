-- ===== src/Tests/Node.antt =====
-- A process with one monitor of one string: its objects are constructed, and it takes packets.
use distributed_monitor.Base.{◌≡◌, refl, [], ◌∷◌, none, some, Bytes, inl}
use distributed_monitor.Communication.Packet.{Packet, mutex_request, sync}
use distributed_monitor.Communication.Clock.{Communicator}
use distributed_monitor.Communication.Manager.{Manager, handle}
use distributed_monitor.Exclusion.System.{on_packet}
use distributed_monitor.Monitor.Sync.{Shared}
use distributed_monitor.Monitor.Node.{Node, Running, remove_cv, destroy_monitor}
use distributed_monitor.Monitor.Node.Destroyed.{saves, destroy_monitor-handle}
use distributed_monitor.Monitor.Node.Laws.{
  monitor_subscriptions, acquiring_subscriptions, after_packet, process_of, handle-on_packet,
}

abbrev name : Bytes
name = 109 ∷ []

abbrev shared : Shared Bytes
shared = record { save_state = λ v. v; restore_state = λ s v. s }

abbrev communicator : Communicator
communicator = record {
  my_process_id = 0;
  number_of_processes = 2;
  other_processes = 1 ∷ [];
  current_lamport_time = 4;
}

-- It has asked for the mutex with stamp 3, and another process waits on its condition variable.
abbrev manager : Manager (Node Bytes)
manager = record {
  subscriptions =
      monitor_subscriptions shared name (acquiring_subscriptions shared name (some name));
  subscription_seq_no = 5;
}

abbrev node : Node Bytes
node = record {
  exclusion = record {
    registered_mutexes = name ∷ [];
    queued_mutexes = (name, 3) ∷ [];
    received_requests = [];
    communicator = communicator;
  };
  registered_cvs = name ∷ [];
  conditional_waits = [];
  agreements = [];
  variables = [];
  out = [];
}

abbrev request : Packet
request = record { lamport_time = 1; source = 1; message_type = mutex_request; message = name }

handle-on_packet_example :
    handle manager request node
    ≡ after_packet shared name node
        (on_packet (process_of shared name (some name) request node) request)
handle-on_packet_example =
    handle-on_packet shared name manager (some name) request node refl (inl refl) (λ e. cc)

-- The process destroys its monitor, and the other process saves.
abbrev running : Running Bytes
running = record {
  manager = record {
    subscriptions = monitor_subscriptions shared name [];
    subscription_seq_no = 4;
  };
  node = node;
}

abbrev left : Running Bytes
left = destroy_monitor 3 name (remove_cv name running)

abbrev saving : Packet
saving = record { lamport_time = 9; source = 1; message_type = sync; message = 1 ∷ 109 ∷ 7 ∷ [] }

destroy_monitor-handle_example : handle left.manager saving left.node ≡ none
destroy_monitor-handle_example =
    destroy_monitor-handle shared name name running saving refl (saves refl)
