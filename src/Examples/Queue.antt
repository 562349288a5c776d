-- ===== src/Examples/Queue.antt =====
-- The queue buffers: `std::queue<T>` with a maximal size.
use distributed_monitor.Base.{
  ℕ, Bool, true, false, List, [], ◌∷◌, ◌++◌, Option, none, some, ◌==◌, leb, length, Bytes, ◌≡◌,
}

pub record Buffer (T : Type 0) : Type 0 where
  pub max_size : ℕ
  pub queue : List T

module _ {T : Type 0} where
  -- `isFull` of the distributed programs
  unfoldable pub is_full : Buffer T → Bool
  is_full b = length b.queue == b.max_size

  -- `isFull` of the local programs
  unfoldable pub is_full_local : Buffer T → Bool
  is_full_local b = leb b.max_size (length b.queue)

  abbrev pub is_empty_list : List T → Bool
  is_empty_list [] = true
  is_empty_list (_ ∷ _) = false

  unfoldable pub is_empty : Buffer T → Bool
  is_empty b = is_empty_list b.queue

  unfoldable pub push : T → Buffer T → Buffer T
  push x b = record b { queue = b.queue ++ x ∷ [] }

  abbrev pub take_first : ℕ → List T → Option T × Buffer T
  take_first m [] = (none, record { max_size = m; queue = [] })
  take_first m (x ∷ q) = (some x, record { max_size = m; queue = q })

  -- `front` and `pop`; the front of an empty queue is undefined, `none`.
  unfoldable pub take_front : Buffer T → Option T × Buffer T
  take_front b = take_first b.max_size b.queue

-- `BoostSerializer` for a `std::queue<T>`: Boost is a parameter, of which the programs need that what
-- it has written it reads again.
pub record Serializer (T : Type 0) : Type 0 where
  pub serialize : List T → Bytes
  pub deserialize : Bytes → List T
  pub deserialize-serialize : (q : List T) → deserialize (serialize q) ≡ q

module _ {T : Type 0} (serializer : Serializer T) where
  open serializer use {serialize, deserialize}

  unfoldable pub save_state : Buffer T → Bytes
  save_state b = serialize b.queue

  unfoldable pub restore_state : Bytes → Buffer T → Buffer T
  restore_state state b = record b { queue = deserialize state }
