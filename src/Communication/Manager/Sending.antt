-- ===== src/Communication/Manager/Sending.antt =====
-- The sends and the getters of src/communication/CommunicationManager.h. Each send first writes a line
-- to the log. The logger and the manager share the communicator, which here stands in the logger.
use distributed_monitor.Base.{ℕ, ◌+◌, ◌%◌, ◌^◌, ◌≡◌, refl, List, [], ◌∷◌, ◌++◌, Bytes}
use distributed_monitor.Communication.Packet.{MessageType, Packet}
use distributed_monitor.Communication.Clock
use distributed_monitor.Communication.Clock.{Communicator, Delivery, tick}
use distributed_monitor.Util.Print.{to_string, print_container, print_packet}
use distributed_monitor.Util.Log.{Terminal, Logger, log}

-- "Sending to process ", "Sending to processes " and "Sending to other processes "
abbrev pub one_label : Bytes
one_label =
    83 ∷ 101 ∷ 110 ∷ 100 ∷ 105 ∷ 110 ∷ 103 ∷ 32 ∷ 116 ∷ 111 ∷ 32 ∷ 112 ∷ 114 ∷ 111 ∷ 99 ∷ 101 ∷ 115
    ∷ 115 ∷ 32 ∷ []

abbrev pub many_label : Bytes
many_label =
    83 ∷ 101 ∷ 110 ∷ 100 ∷ 105 ∷ 110 ∷ 103 ∷ 32 ∷ 116 ∷ 111 ∷ 32 ∷ 112 ∷ 114 ∷ 111 ∷ 99 ∷ 101 ∷ 115
    ∷ 115 ∷ 101 ∷ 115 ∷ 32 ∷ []

abbrev pub others_label : Bytes
others_label =
    83 ∷ 101 ∷ 110 ∷ 100 ∷ 105 ∷ 110 ∷ 103 ∷ 32 ∷ 116 ∷ 111 ∷ 32 ∷ 111 ∷ 116 ∷ 104 ∷ 101 ∷ 114 ∷ 32
    ∷ 112 ∷ 114 ∷ 111 ∷ 99 ∷ 101 ∷ 115 ∷ 115 ∷ 101 ∷ 115 ∷ 32 ∷ []

-- What a send writes, what it returns, what goes to the network, and the logger with the communicator
-- afterwards.
pub record Sent : Type 0 where
  pub line : Bytes
  pub packet : Packet
  pub out : List Delivery
  pub logger : Logger

-- The terminal, the time of day and the id of the thread.
module _ (terminal : Terminal) (now : Bytes) (id : ℕ) where
  -- `Logger::log` with its default colour and style
  abbrev pub log_plain : Bytes → Logger → Bytes × Logger
  log_plain text l = log terminal now id text terminal.fg_reset (terminal.style 0) l

  abbrev after_line : Bytes × Logger → (Communicator → Communicator × Packet × List Delivery) → Sent
  after_line (line, l) send =
      let (c, p, out) = send l.communicator in
      record { line = line; packet = p; out = out; logger = record l { communicator = c } }

  unfoldable pub send_one : Logger → MessageType → Bytes → ℕ → Sent
  unfolding log Clock.send_one
  send_one l t message recipient =
      after_line (log_plain (one_label ++ (to_string recipient ++ (32 ∷ print_packet t message))) l)
        (λ c. Clock.send_one c t message recipient)

  unfoldable pub send : Logger → MessageType → Bytes → List ℕ → Sent
  unfolding log Clock.send
  send l t message recipients =
      after_line
        (log_plain (many_label ++ (print_container recipients ++ (32 ∷ print_packet t message))) l)
        (λ c. Clock.send c t message recipients)

  unfoldable pub send_others : Logger → MessageType → Bytes → Sent
  unfolding log Clock.send_others
  send_others l t message =
      after_line (log_plain (others_label ++ print_packet t message) l)
        (λ c. Clock.send_others c t message)

unfoldable pub get_process_id : Logger → ℕ
get_process_id l = l.communicator.my_process_id

unfoldable pub get_number_of_processes : Logger → ℕ
get_number_of_processes l = l.communicator.number_of_processes

unfoldable pub get_current_lamport_time : Logger → ℕ
get_current_lamport_time l = l.communicator.current_lamport_time

-- The log is no event of the clock: a send by the manager does to the clock and to the network what
-- the communicator does, and what `getCurrentLamportTime` then returns is the stamp of the packet.
pub send_others-get_current_lamport_time :
    (terminal : Terminal) (now : Bytes) (id : ℕ) (l : Logger) (t : MessageType) (message : Bytes)
    → let s = send_others terminal now id l t message in
      (s.out ≡ (Clock.send_others l.communicator t message).2)
      × (s.packet.lamport_time ≡ (get_current_lamport_time l + 1) % 2 ^ 64)
      × (get_current_lamport_time s.logger ≡ s.packet.lamport_time)
unfolding send_others get_current_lamport_time log Clock.send_others Clock.send Clock.tick
send_others-get_current_lamport_time terminal now id l t message = (refl, refl, refl)
