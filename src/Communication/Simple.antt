-- ===== src/Communication/Simple.antt =====
-- communication/MpiSimpleCommunicator: a packet travels as a header of fixed shape and, if its
-- text is not empty, a second MPI message with the text.
-- MPI is a parameter: `pending` is what it still holds from one source, in the order in which it was
-- sent, as MPI keeps the messages of one pair of processes in order. A process has one receiving
-- thread, so nobody else takes messages away between a header and its text.
pub mod Laws
use distributed_monitor.Base.{
  ℕ, zero, suc, ◌-◌, ◌%◌, ◌^◌, List, [], ◌∷◌, ◌++◌, ◌&&◌, Bool, ltb, leb, ◌==◌, if◌then◌else◌,
  length, Bytes,
}
use distributed_monitor.Communication.Packet.{MessageType, type_code, code_type, Packet}
use distributed_monitor.Communication.Clock.{Communicator, tick, merge}

pub record RawPacket : Type 0 where
  pub lamport_time : ℕ  -- uint64_t
  pub message_type : ℕ  -- uint8_t
  pub next_packet_length : ℕ  -- uint32_t

-- `RawPacket::operator==`
unfoldable pub raw_eq : RawPacket → RawPacket → Bool
raw_eq a b = a.message_type == b.message_type && a.next_packet_length == b.next_packet_length

-- `RawPacket::operator<`
unfoldable pub raw_lt : RawPacket → RawPacket → Bool
raw_lt a b = ltb a.lamport_time b.lamport_time

-- An MPI message: one value of the header's type, or characters.
pub data Frame : Type 0 where
  header : RawPacket → Frame
  chars : Bytes → Frame

pub record Envelope : Type 0 where
  pub to : ℕ
  pub tag : ℕ
  pub frame : Frame

-- The two `MPI_Send` of one round of the loop. The count of the second is the size as an `int`;
-- MPI refuses one that is negative, so a text of 2 ^ 31 bytes or more is outside this model.
unfoldable pub frames : RawPacket → Bytes → List Frame
frames raw [] = header raw ∷ []
frames raw (x ∷ s) = header raw ∷ chars (x ∷ s) ∷ []

unfoldable pub envelopes : ℕ → ℕ → List Frame → List Envelope
envelopes recipient tag [] = []
envelopes recipient tag (f ∷ fs) =
    record { to = recipient; tag = tag; frame = f } ∷ envelopes recipient tag fs

-- `for (ProcessId recipient : recipients)`
unfoldable pub send_each : List ℕ → ℕ → List Frame → List Envelope
unfolding envelopes
send_each [] tag fs = []
send_each (r ∷ rs) tag fs = envelopes r tag fs ++ send_each rs tag fs

unfoldable pub raw_packet : Communicator → MessageType → Bytes → RawPacket
raw_packet c t message = record {
  lamport_time = c.current_lamport_time % 2 ^ 64;
  message_type = type_code t % 2 ^ 8;
  next_packet_length = length message % 2 ^ 32;
}

unfoldable pub send :
    Communicator → MessageType → Bytes → List ℕ → ℕ → Communicator × Packet × List Envelope
unfolding tick raw_packet frames send_each
send c t message recipients tag =
    let c' = tick c in
    let raw = raw_packet c' t message in
    let p : Packet = record {
      lamport_time = raw.lamport_time;
      source = c.my_process_id;
      message_type = t;
      message = message;
    } in
    (c', p, send_each recipients tag (frames raw message))

unfoldable pub to_packet : RawPacket → ℕ → Bytes → Packet
unfolding code_type
to_packet raw source message = record {
  lamport_time = raw.lamport_time;
  source = source;
  message_type = code_type raw.message_type;
  message = message;
}

-- How a call of `receive` ends: with a packet and what MPI then still holds; waiting for a message;
-- with `std::nullopt`; or with an error of MPI, for a message of another type than the one asked
-- for or longer than the buffer. MPI calls both erroneous; it need not report the first.
pub data Receipt : Type 0 where
  received : Communicator → Packet → List Frame → Receipt
  blocked : Receipt
  timed_out : List Frame → Receipt
  mpi_error : Receipt

abbrev pub zeros : ℕ → Bytes
zeros zero = []
zeros (suc n) = 0 ∷ zeros n

-- `MPI_Recv` of characters into `message.resize(n)`: a shorter text leaves zeros behind it.
unfoldable pub fill : ℕ → Bytes → Bytes
fill n s = s ++ zeros (n - length s)

-- The end of `receive`: the clock, and the packet.
unfoldable pub deliver : Communicator → ℕ → RawPacket → Bytes → List Frame → Receipt
unfolding merge to_packet
deliver c source raw message rest =
    received (merge raw.lamport_time c) (to_packet raw source message) rest

unfoldable pub receive_text : Communicator → ℕ → RawPacket → List Frame → Receipt
unfolding fill deliver
receive_text c source raw [] = blocked
receive_text c source raw (header _ ∷ rest) = mpi_error
receive_text c source raw (chars s ∷ rest) =
    if leb (length s) raw.next_packet_length
    then deliver c source raw (fill raw.next_packet_length s) rest
    else mpi_error

-- `receive(tag)` where MPI takes the next message of `source`.
unfoldable pub receive : Communicator → ℕ → List Frame → Receipt
unfolding receive_text deliver
receive c source [] = blocked
receive c source (chars _ ∷ rest) = mpi_error
receive c source (header raw ∷ rest) =
    if ltb 0 raw.next_packet_length
    then receive_text c source raw rest
    else deliver c source raw [] rest

-- `receive(timeoutMillis, tag)`: `arrived` says how many of the pending messages come before the
-- time is over. A receive that is cancelled takes nothing; what an earlier one took is gone.
unfoldable pub receive_within : ℕ → Communicator → ℕ → List Frame → Receipt
unfolding receive_text deliver
receive_within arrived c source [] = timed_out []
receive_within zero c source (f ∷ rest) = timed_out (f ∷ rest)
receive_within (suc arrived) c source (chars _ ∷ rest) = mpi_error
receive_within (suc zero) c source (header raw ∷ rest) =
    if ltb 0 raw.next_packet_length then timed_out rest else deliver c source raw [] rest
receive_within (suc (suc arrived)) c source (header raw ∷ []) =
    if ltb 0 raw.next_packet_length then timed_out [] else deliver c source raw [] []
receive_within (suc (suc arrived)) c source (header raw ∷ f ∷ rest) =
    if ltb 0 raw.next_packet_length
    then receive_text c source raw (f ∷ rest)
    else deliver c source raw [] (f ∷ rest)
