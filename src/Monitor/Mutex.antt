-- ===== src/Monitor/Mutex.antt =====
-- distributed/DistributedMutex.h and distributed/DistributedConditionVariable.h, over the interfaces
-- of algorithms/IDistributedExclusionAlgorithm.h and
-- algorithms/IDistributedConditionVariableAlgorithm.h.
pub mod Laws
use distributed_monitor.Base.{
  ℕ, ◌+◌, ◌≡◌, refl, Bool, true, false, not, List, [], ◌∷◌, Option, none, some, if◌then◌else◌,
  Bytes,
}

-- `IDistributedExclusionAlgorithm`: what each member does to the state of the algorithm, the return
-- of `acquire_mutex` included.
pub record ExclusionAlgorithm (S : Type 0) : Type 0 where
  pub register_mutex : Bytes → S → S
  pub unregister_mutex : Bytes → S → S
  pub acquire_mutex : Bytes → S → S
  pub release_mutex : Bytes → S → S
  pub get_process_id : S → ℕ

pub record Mutex : Type 0 where
  pub name : Bytes
  pub owned : Bool  -- std::atomic_bool

-- `IDistributedConditionVariableAlgorithm`. `wait` is handed the mutex, which it unlocks and locks
-- again, and a predicate on the state.
pub record ConditionAlgorithm (S : Type 0) : Type 0 where
  pub register_cv : Bytes → S → S
  pub unregister_cv : Bytes → S → S
  pub wait : Bytes → Mutex → (S → Bool) → S → Mutex × S
  pub notify_one : Bytes → S → S
  pub notify_all : Bytes → S → S

unfoldable pub is_owned : Mutex → Bool
is_owned m = m.owned

module _ {S : Type 0} (algorithm : ExclusionAlgorithm S) where
  open algorithm use {register_mutex, unregister_mutex, acquire_mutex, release_mutex}

  unfoldable pub construct : Bytes → S → Mutex × S
  construct name s = (record { name = name; owned = false }, register_mutex name s)

  unfoldable pub destroy : Mutex → S → S
  destroy m s = unregister_mutex m.name s

  unfoldable pub lock : Mutex → S → Mutex × S
  lock m s = (record m { owned = true }, acquire_mutex m.name s)

  unfoldable pub unlock : Mutex → S → Mutex × S
  unfolding is_owned
  unlock m s =
      if not (is_owned m) then (m, s) else (record m { owned = false }, release_mutex m.name s)

  unfoldable pub try_lock : Mutex → S → Bool × Mutex × S
  unfolding is_owned lock
  try_lock m s =
      if not (is_owned m) then (let (m', s') = lock m s in (true, m', s')) else (false, m, s)

  -- The constructor of `DistributedMonitorHelper`, the beginning of an entry.
  unfoldable pub begin_entry : Mutex → S → Mutex × S
  unfolding lock
  begin_entry m s = lock m s

module _ {S : Type 0} (algorithm : ConditionAlgorithm S) where
  -- The name is that of the condition variable. `none` is the exception for a mutex not locked.
  unfoldable pub wait : Bytes → Mutex → (S → Bool) → S → Option (Mutex × S)
  unfolding is_owned
  wait name m predicate s =
      if not (is_owned m) then none else some (algorithm.wait name m predicate s)

  unfoldable pub notify_one : Bytes → S → S
  notify_one name s = algorithm.notify_one name s

  unfoldable pub notify_all : Bytes → S → S
  notify_all name s = algorithm.notify_all name s

  -- The constructor and the destructor of a condition variable.
  unfoldable pub construct_cv : Bytes → S → S
  construct_cv name s = algorithm.register_cv name s

  unfoldable pub destroy_cv : Bytes → S → S
  destroy_cv name s = algorithm.unregister_cv name s
