-- ===== src/Examples/Ring.antt =====
-- The array buffer of DistributedProdConsSimple.cpp and DistributedProdConsSimpleTwoCV.cpp, and that
-- of `BufferSimple` in DistributedProdConsTwoMonitors.cpp. A `char` is its byte.
pub mod Refine
pub mod Abstract
use distributed_monitor.Base.{
  ℕ, zero, suc, ◌+◌, ◌%◌, ◌^◌, Bool, List, [], ◌∷◌, ◌++◌, ◌==◌, length, get_or, set, take, drop,
  Bytes, Option, none, some, if◌then◌else◌,
}

abbrev pub max_queue_size : ℕ
max_queue_size = 5

pub record Ring : Type 0 where
  pub buffer : Bytes  -- char[MAX_QUEUE_SIZE]
  pub get_index : ℕ
  pub put_index : ℕ
  pub count : ℕ

abbrev pub fresh : Ring
fresh = record { buffer = 0 ∷ 0 ∷ 0 ∷ 0 ∷ 0 ∷ []; get_index = 0; put_index = 0; count = 0 }

unfoldable pub save_state : Ring → Bytes
save_state r = r.get_index ∷ r.put_index ∷ r.count ∷ take max_queue_size r.buffer

-- The bytes behind the third go over the start of the array.
unfoldable pub restore_state : Bytes → Ring → Ring
restore_state state r = record {
  buffer = drop 3 state ++ drop (length (drop 3 state)) r.buffer;
  get_index = get_or state 0 0;
  put_index = get_or state 1 0;
  count = get_or state 2 0;
}

unfoldable pub is_full : Ring → Bool
is_full r = r.count == max_queue_size

unfoldable pub is_empty : Ring → Bool
is_empty r = r.count == 0

-- `produce` between the wait and the notification.
unfoldable pub put : ℕ → Ring → Ring
put request r = record r {
  buffer = set r.buffer r.put_index request;
  count = (r.count + 1) % 2 ^ 8;
  put_index = (r.put_index + 1) % max_queue_size;
}

-- `consume` between the wait and the notification.
unfoldable pub get : Ring → ℕ × Ring
get r = (
  get_or r.buffer r.get_index 0,
  record r { count = (r.count + 255) % 2 ^ 8; get_index = (r.get_index + 1) % max_queue_size },
)
