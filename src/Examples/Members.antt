-- ===== src/Examples/Members.antt =====
-- The members of the buffer classes, by program: each class of src/examples/ declares its own, after
-- that of DistributedProdConsSimple.cpp or that of DistributedProdConsSingleCV.cpp.
use distributed_monitor.Base.{ℕ, Bool, [], Bytes}
use distributed_monitor.Examples.Ring
use distributed_monitor.Examples.Ring.{Ring, fresh}
use distributed_monitor.Examples.Queue
use distributed_monitor.Examples.Queue.{Buffer, Serializer}

-- DistributedProdConsSimpleTwoCV.cpp
abbrev pub simple_two_cv_fresh : Ring
simple_two_cv_fresh = fresh

abbrev pub simple_two_cv_save_state : Ring → Bytes
simple_two_cv_save_state = Ring.save_state

abbrev pub simple_two_cv_restore_state : Bytes → Ring → Ring
simple_two_cv_restore_state = Ring.restore_state

abbrev pub simple_two_cv_is_full : Ring → Bool
simple_two_cv_is_full = Ring.is_full

abbrev pub simple_two_cv_is_empty : Ring → Bool
simple_two_cv_is_empty = Ring.is_empty

-- `BufferSimple` of DistributedProdConsTwoMonitors.cpp
abbrev pub buffer_simple_fresh : Ring
buffer_simple_fresh = fresh

abbrev pub buffer_simple_save_state : Ring → Bytes
buffer_simple_save_state = Ring.save_state

abbrev pub buffer_simple_restore_state : Bytes → Ring → Ring
buffer_simple_restore_state = Ring.restore_state

abbrev pub buffer_simple_is_full : Ring → Bool
buffer_simple_is_full = Ring.is_full

abbrev pub buffer_simple_is_empty : Ring → Bool
buffer_simple_is_empty = Ring.is_empty

module _ {T : Type 0} where
  -- DistributedProdConsSingleCVUnlockFirst.cpp
  abbrev pub unlock_first_empty : ℕ → Buffer T
  unlock_first_empty size = record { max_size = size; queue = [] }

  abbrev pub unlock_first_is_full : Buffer T → Bool
  unlock_first_is_full = Queue.is_full

  abbrev pub unlock_first_is_empty : Buffer T → Bool
  unlock_first_is_empty = Queue.is_empty

  -- DistributedProdConsTwoCV.cpp
  abbrev pub two_cv_empty : ℕ → Buffer T
  two_cv_empty size = record { max_size = size; queue = [] }

  abbrev pub two_cv_is_full : Buffer T → Bool
  two_cv_is_full = Queue.is_full

  abbrev pub two_cv_is_empty : Buffer T → Bool
  two_cv_is_empty = Queue.is_empty

  -- `BufferAdv` of DistributedProdConsTwoMonitors.cpp
  abbrev pub buffer_adv_empty : ℕ → Buffer T
  buffer_adv_empty size = record { max_size = size; queue = [] }

  abbrev pub buffer_adv_is_full : Buffer T → Bool
  buffer_adv_is_full = Queue.is_full

  abbrev pub buffer_adv_is_empty : Buffer T → Bool
  buffer_adv_is_empty = Queue.is_empty

  -- LocalProdConsSingleCV.cpp
  abbrev pub one_cond_empty : ℕ → Buffer T
  one_cond_empty size = record { max_size = size; queue = [] }

  abbrev pub one_cond_is_full : Buffer T → Bool
  one_cond_is_full = Queue.is_full_local

  abbrev pub one_cond_is_empty : Buffer T → Bool
  one_cond_is_empty = Queue.is_empty

  -- LocalProdConsTwoCV.cpp
  abbrev pub two_cond_empty : ℕ → Buffer T
  two_cond_empty size = record { max_size = size; queue = [] }

  abbrev pub two_cond_is_full : Buffer T → Bool
  two_cond_is_full = Queue.is_full_local

  abbrev pub two_cond_is_empty : Buffer T → Bool
  two_cond_is_empty = Queue.is_empty

  -- LocalProdConsTwoCVMulti.cpp
  abbrev pub multi_empty : ℕ → Buffer T
  multi_empty size = record { max_size = size; queue = [] }

  abbrev pub multi_is_full : Buffer T → Bool
  multi_is_full = Queue.is_full_local

  abbrev pub multi_is_empty : Buffer T → Bool
  multi_is_empty = Queue.is_empty

module _ {T : Type 0} (serializer : Serializer T) where
  abbrev pub unlock_first_save_state : Buffer T → Bytes
  unlock_first_save_state = Queue.save_state serializer

  abbrev pub unlock_first_restore_state : Bytes → Buffer T → Buffer T
  unlock_first_restore_state = Queue.restore_state serializer

  abbrev pub two_cv_save_state : Buffer T → Bytes
  two_cv_save_state = Queue.save_state serializer

  abbrev pub two_cv_restore_state : Bytes → Buffer T → Buffer T
  two_cv_restore_state = Queue.restore_state serializer

  abbrev pub buffer_adv_save_state : Buffer T → Bytes
  buffer_adv_save_state = Queue.save_state serializer

  abbrev pub buffer_adv_restore_state : Bytes → Buffer T → Buffer T
  buffer_adv_restore_state = Queue.restore_state serializer
