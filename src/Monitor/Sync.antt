-- ===== src/Monitor/Sync.antt =====
-- distributed/DistributedMonitor.h and distributed/DistributedMonitorHelper.cpp: the message that
-- carries the shared state, packed by the process that leaves the monitor and read by the others.
pub mod Laws
use distributed_monitor.Base.{
  ℕ, ◌+◌, ◌-◌, ◌%◌, ◌^◌, ◌≤◌, ◌<◌, ◌≡◌, refl, Bool, true, false, ◌&&◌, List, [], ◌∷◌, ◌++◌, Option,
  none, some, ltb, leb, if◌then◌else◌, length, take, drop, get_or, Bytes, bytes_eq,
}
use distributed_monitor.Communication.Packet.{MessageType, sync, type_eq, Packet}
use distributed_monitor.Communication.Clock.{Communicator, Delivery, send_others}
use distributed_monitor.Exclusion.Algorithm.{Exclusion, release_mutex}

-- `static_cast<std::string_view::size_type>` of a `char`, which is signed.
unfoldable pub char_size : ℕ → ℕ
char_size c = if ltb c 128 then c else 2 ^ 64 - 256 + c

-- `s.substr(pos, count)`: `none` is `std::out_of_range`.
unfoldable pub substr : Bytes → ℕ → ℕ → Option Bytes
substr s pos count = if ltb (length s) pos then none else some (take count (drop pos s))

-- `s.substr(pos)`
unfoldable pub substr_from : Bytes → ℕ → Option Bytes
substr_from s pos = if ltb (length s) pos then none else some (drop pos s)

-- `message[0]` of an empty `std::string` is the zero byte.
unfoldable pub extract_mutex_name : Bytes → Option Bytes
unfolding char_size substr
extract_mutex_name message = substr message 1 (char_size (get_or message 0 0))

unfoldable pub extract_serialized_data : Bytes → Option Bytes
unfolding char_size substr_from
extract_serialized_data message =
    substr_from message ((char_size (get_or message 0 0) + 1) % 2 ^ 64)

-- `static_cast<char>(name.length()) + name + serializedState`
unfoldable pub pack_sync_message : Bytes → Bytes → Bytes
pack_sync_message name state = length name % 256 ∷ name ++ state

-- `assert(name.length() <= static_cast<unsigned char>(-1))` of the constructor.
unfoldable pub accepts_name : Bytes → Bool
accepts_name name = leb (length name) 255

-- The predicate of the subscription; `none` is an exception.
unfoldable pub takes_sync : Bytes → Packet → Option Bool
unfolding extract_mutex_name
takes_sync name p =
    if type_eq p.message_type sync
    then (elim (extract_mutex_name p.message) [ none ↦ none | some s ↦ some (bytes_eq s name) ])
    else some false

-- The shared variables of a derived monitor: `save_state` and `restore_state` are its own.
pub record Shared (V : Type 0) : Type 0 where
  pub save_state : V → Bytes
  pub restore_state : Bytes → V → V

module _ {V : Type 0} (shared : Shared V) where
  open shared use {save_state, restore_state}

  -- The callback of the subscription.
  unfoldable pub on_sync : Packet → V → Option V
  unfolding extract_serialized_data
  on_sync p v = elim (extract_serialized_data p.message) [
    | none ↦ none
    | some state ↦ some (restore_state state v)
  ]

  -- `~DistributedMonitorHelper` of a process that owns the mutex.
  unfoldable pub leave : Exclusion → Bytes → V → Exclusion × List Delivery
  unfolding pack_sync_message send_others release_mutex
  leave a name v =
      let (c, _, out) = send_others a.communicator sync (pack_sync_message name (save_state v)) in
      let (a', more) = release_mutex (record a { communicator = c }) name in (a', out ++ more)
