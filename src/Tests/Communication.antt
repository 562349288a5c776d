-- ===== src/Tests/Communication.antt =====
-- Packets of process 0 for process 1 of two, over communication/.
use distributed_monitor.Base.{
  map, All, ℕ, ◌+◌, ◌<◌, ◌≡◌, refl, true, List, [], ◌∷◌, ◌++◌, none, some, arith, count, Bytes,
}
use distributed_monitor.Communication.Packet.{mutex_request, sync, code_type, type_eq, Packet}
use distributed_monitor.Communication.Clock
use distributed_monitor.Communication.Clock.{Communicator, init, other_ids}
use distributed_monitor.Communication.Clock.Laws.{send-accept_later}
use distributed_monitor.Communication.Simple
use distributed_monitor.Communication.Simple.{RawPacket, Frame, header, received, mpi_error, frames}
use distributed_monitor.Communication.Simple.Laws.{frames_to, receive-send}
use distributed_monitor.Communication.Optimized
use distributed_monitor.Communication.Optimized.{Letter, encode, get_packet}
use distributed_monitor.Communication.Optimized.Laws.{get_packet-encode, Arrives, receive-encode}
use distributed_monitor.Communication.Manager.{Subscription, Manager, handle}
use distributed_monitor.Communication.Manager.Thread.{
  receiving, ended, Receiver, Event, tests, takes, changes, step, run, one_taken, in_receive,
  run-in_receive,
}
use distributed_monitor.Communication.Manager.Laws.{Managed, constructed, subscribed, handle-one}

abbrev sender : Communicator
sender = record {
  my_process_id = 0;
  number_of_processes = 2;
  other_processes = 1 ∷ [];
  current_lamport_time = 4;
}

abbrev receiver : Communicator
receiver = record {
  my_process_id = 1;
  number_of_processes = 2;
  other_processes = 0 ∷ [];
  current_lamport_time = 7;
}

abbrev text : Bytes
text = 109 ∷ 111 ∷ []

abbrev packet : Packet
packet = record { lamport_time = 5; source = 0; message_type = mutex_request; message = text }

abbrev raw : RawPacket
raw = record { lamport_time = 5; message_type = 0; next_packet_length = 2 }

receive-send_example :
    Simple.receive receiver 0
      (frames_to 1 (Simple.send sender mutex_request text (1 ∷ []) 3).2 ++ header raw ∷ [])
    ≡ received
        (Clock.accept receiver (Simple.send sender mutex_request text (1 ∷ []) 3).1).0
        (Simple.send sender mutex_request text (1 ∷ []) 3).1
        (header raw ∷ [])
unfolding code_type
receive-send_example =
    receive-send sender receiver mutex_request text (1 ∷ []) 3 1 (header raw ∷ [])
      (omega arith, refl) (omega arith) refl

get_packet-encode_example : get_packet (encode 5 mutex_request text) 0 ≡ some packet
unfolding code_type
get_packet-encode_example =
    get_packet-encode 5 mutex_request text 0 (omega arith) (omega arith, refl)

abbrev sent : Communicator × Packet × List Letter
sent = Optimized.send sender mutex_request text (1 ∷ []) 3

receive-encode_example :
    (sent.1 ≡ record { lamport_time = 5; source = 0; message_type = mutex_request; message = text })
    × (sent.0.current_lamport_time ≡ sent.1.lamport_time)
    × (map (λ l. l.to) sent.2 ≡ 1 ∷ [])
    × ((c : Communicator) → All (λ l. (l.tag ≡ 3) × Arrives c sent.1 l.body) sent.2)
unfolding code_type
receive-encode_example = receive-encode sender mutex_request text (1 ∷ []) 3 (omega arith, refl)

send-accept_later_example :
    (packet.lamport_time
      < (Clock.send (Clock.accept receiver packet).0 sync text (0 ∷ [])).1.lamport_time)
    × (receiver.current_lamport_time
        < (Clock.send (Clock.accept receiver packet).0 sync text (0 ∷ [])).1.lamport_time)
    × ((Clock.send (Clock.accept receiver packet).0 sync text (0 ∷ [])).1.lamport_time
        ≡ (Clock.send (Clock.accept receiver packet).0 sync text (0 ∷ [])).0.current_lamport_time)
send-accept_later_example =
    send-accept_later receiver packet sync text (0 ∷ []) (omega arith) (omega arith)

-- A callback that counts requests, and one that throws at a packet with the state's text.
abbrev counting : Subscription ℕ
counting = record {
  predicate = λ s p. some (type_eq p.message_type mutex_request);
  callback = λ p s. some (s + 1);
}

abbrev throwing : Subscription ℕ
throwing = record { predicate = λ s p. some (type_eq p.message_type sync); callback = λ p s. none }

abbrev manager : Manager ℕ
manager = record { subscriptions = (0, throwing) ∷ (1, counting) ∷ []; subscription_seq_no = 2 }

handle-one_example : handle manager packet 6 ≡ counting.callback packet 6
handle-one_example =
    handle-one manager packet 6 ((0, throwing) ∷ []) [] 1 counting refl (refl, tt) refl (λ s e. tt)

-- The same manager without the subscription that counts, made by the calls.
abbrev subscribing : (m : Manager ℕ) × Managed 1 m
subscribing = (_, subscribed throwing constructed)

-- The thread stands in `receive` when the manager is destroyed.
abbrev stopped : Receiver ℕ
stopped = record { manager = manager; state = 6; phase = receiving; terminate = true }

abbrev events : List (Event ℕ)
events = changes manager 7 ∷ takes packet ∷ tests ∷ []

abbrev gone : Receiver ℕ
gone = record { manager = manager; state = 8; phase = ended; terminate = true }

run-in_receive_example :
    (gone.terminate ≡ true) × (count one_taken events + in_receive ended ≡ in_receive receiving)
unfolding step handle run
run-in_receive_example = run-in_receive events stopped gone refl refl
