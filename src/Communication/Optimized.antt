-- ===== src/Communication/Optimized.antt =====
-- communication/MpiOptimizedCommunicator: a packet travels as one MPI message of bytes, the time
-- stamp in the eight bytes of a little-endian machine, the type in one byte, then the text.
pub mod Laws
use distributed_monitor.Base.{
  ℕ, zero, suc, ◌+◌, ◌*◌, ◌/◌, ◌%◌, ◌^◌, List, [], ◌∷◌, ◌++◌, Option, none, some, ltb,
  if◌then◌else◌, length, drop, get_or, Bytes,
}
use distributed_monitor.Communication.Packet.{MessageType, type_code, code_type, Packet}
use distributed_monitor.Communication.Clock.{Communicator, tick, merge}

-- The `k` low bytes of a number, the lowest first, as they lie in memory.
unfoldable pub store_bytes : ℕ → ℕ → Bytes
store_bytes zero v = []
store_bytes (suc k) v = v % 256 ∷ store_bytes k (v / 256)

-- The number that `k` bytes in memory stand for.
unfoldable pub load_bytes : ℕ → Bytes → ℕ
load_bytes zero s = 0
load_bytes (suc k) [] = 0
load_bytes (suc k) (b ∷ s) = b + 256 * load_bytes k s

unfoldable pub encode : ℕ → MessageType → Bytes → Bytes
unfolding store_bytes
encode t type message = store_bytes 8 (t % 2 ^ 64) ++ store_bytes 1 (type_code type) ++ message

-- `none` is a message shorter than the header, from which the code would read past the end.
unfoldable pub get_packet : Bytes → ℕ → Option Packet
unfolding load_bytes code_type
get_packet encoded source =
    if ltb (length encoded) 9
    then none
    else some (record {
      lamport_time = load_bytes 8 encoded;
      source = source;
      message_type = code_type (get_or encoded 8 0);
      message = drop 9 encoded;
    })

-- The clock is advanced, and the packet's own time stamp is overwritten by it. The code reads the clock
-- for the stamp after it has released the lock; the sends of another thread in between, which would make
-- the stamp later, are not modelled.
unfoldable pub update_timestamp : Communicator → Packet → Communicator × Packet
unfolding merge
update_timestamp c p =
    let c' = merge p.lamport_time c in (c', record p { lamport_time = c'.current_lamport_time })

pub record Letter : Type 0 where
  pub to : ℕ
  pub tag : ℕ
  pub body : Bytes

unfoldable pub letters : List ℕ → ℕ → Bytes → List Letter
letters [] tag body = []
letters (r ∷ rs) tag body = record { to = r; tag = tag; body = body } ∷ letters rs tag body

unfoldable pub send :
    Communicator → MessageType → Bytes → List ℕ → ℕ → Communicator × Packet × List Letter
unfolding tick encode letters
send c t message recipients tag =
    let c' = tick c in
    let p : Packet = record {
      lamport_time = c'.current_lamport_time;
      source = c.my_process_id;
      message_type = t;
      message = message;
    } in
    (c', p, letters recipients tag (encode c'.current_lamport_time t message))

-- `receive(tag)`, with the message that MPI hands over. The text is received whole: the buffer has
-- the size that was probed.
unfoldable pub receive : Communicator → ℕ → Bytes → Option (Communicator × Packet)
unfolding get_packet update_timestamp
receive c source body = elim (get_packet body source) [
  | none ↦ none
  | some p ↦ some (update_timestamp c p)
]

-- `receive(timeoutMillis, tag)`: `pending` is the source and the message that `MPI_Iprobe` finds
-- before the time is over, if it finds one. The outer `none` is as for `receive`, the inner one is
-- `std::nullopt`.
unfoldable pub receive_within :
    Communicator → Option (ℕ × Bytes) → Option (Option (Communicator × Packet))
unfolding receive
receive_within c none = some none
receive_within c (some (source, body)) = elim (receive c source body) [
  | none ↦ none
  | some r ↦ some (some r)
]
