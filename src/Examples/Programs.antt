-- ===== src/Examples/Programs.antt =====
-- The entries of the example programs, each in the order in which it makes its calls, over any
-- monitor. `none` is an entry that never returns. The names of the condition variables are the programs'.
pub mod Bounds
use distributed_monitor.Base.{ℕ, Bool, not, List, [], ◌∷◌, Option, none, some, ◌>>=◌, Bytes}
use distributed_monitor.Examples.Ring
use distributed_monitor.Examples.Ring.{Ring}
use distributed_monitor.Examples.Queue
use distributed_monitor.Examples.Queue.{Buffer}
use distributed_monitor.Examples.Members.{
  simple_two_cv_is_full, simple_two_cv_is_empty, buffer_simple_is_full, buffer_simple_is_empty,
  unlock_first_is_full, unlock_first_is_empty, two_cv_is_full, two_cv_is_empty, buffer_adv_is_full,
  buffer_adv_is_empty, one_cond_is_full, one_cond_is_empty, two_cond_is_full, two_cond_is_empty,
  multi_is_full, multi_is_empty,
}
use distributed_monitor.Examples.Entry.{MonitorOps}

-- "empty" and "full"
abbrev pub empty_cv : Bytes
empty_cv = 101 ∷ 109 ∷ 112 ∷ 116 ∷ 121 ∷ []

abbrev pub full_cv : Bytes
full_cv = 102 ∷ 117 ∷ 108 ∷ 108 ∷ []

module _ {S : Type 0} (ops : MonitorOps Ring S) where
  open ops use {variables, assign, enter, wait, notify_one, leave}

  -- DistributedProdConsSimple.cpp, where the condition variable has the monitor's name
  unfoldable pub simple_produce : Bytes → ℕ → S → Option S
  simple_produce cv request s = do
    s0 ← enter s
    s1 ← wait cv (λ r. not (Ring.is_full r)) s0
    some (leave (notify_one cv (assign (Ring.put request (variables s1)) s1)))

  unfoldable pub simple_consume : Bytes → S → Option (ℕ × S)
  simple_consume cv s = do
    s0 ← enter s
    s1 ← wait cv (λ r. not (Ring.is_empty r)) s0
    let (request, r) = Ring.get (variables s1) in
        some (request, leave (notify_one cv (assign r s1)))

  -- DistributedProdConsSimpleTwoCV.cpp
  unfoldable pub simple_two_cv_produce : ℕ → S → Option S
  simple_two_cv_produce request s = do
    s0 ← enter s
    s1 ← wait full_cv (λ r. not (simple_two_cv_is_full r)) s0
    some (leave (notify_one empty_cv (assign (Ring.put request (variables s1)) s1)))

  unfoldable pub simple_two_cv_consume : S → Option (ℕ × S)
  simple_two_cv_consume s = do
    s0 ← enter s
    s1 ← wait empty_cv (λ r. not (simple_two_cv_is_empty r)) s0
    let (request, r) = Ring.get (variables s1) in
        some (request, leave (notify_one full_cv (assign r s1)))

  -- `BufferSimple` of DistributedProdConsTwoMonitors.cpp
  unfoldable pub buffer_simple_produce : Bytes → ℕ → S → Option S
  buffer_simple_produce cv request s = do
    s0 ← enter s
    s1 ← wait cv (λ r. not (buffer_simple_is_full r)) s0
    some (leave (notify_one cv (assign (Ring.put request (variables s1)) s1)))

  unfoldable pub buffer_simple_consume : Bytes → S → Option (ℕ × S)
  buffer_simple_consume cv s = do
    s0 ← enter s
    s1 ← wait cv (λ r. not (buffer_simple_is_empty r)) s0
    let (request, r) = Ring.get (variables s1) in
        some (request, leave (notify_one cv (assign r s1)))

module _ {T S : Type 0} (ops : MonitorOps (Buffer T) S) where
  open ops use {variables, assign, enter, wait, notify_one, notify_all, leave}

  -- DistributedProdConsSingleCV.cpp
  unfoldable pub single_cv_produce : Bytes → T → S → Option S
  single_cv_produce cv request s = do
    s0 ← enter s
    s1 ← wait cv (λ b. not (Queue.is_full b)) s0
    some (leave (notify_one cv (assign (Queue.push request (variables s1)) s1)))

  unfoldable pub single_cv_consume : Bytes → S → Option (Option T × S)
  single_cv_consume cv s = do
    s0 ← enter s
    s1 ← wait cv (λ b. not (Queue.is_empty b)) s0
    let (request, b) = Queue.take_front (variables s1) in
        some (request, leave (notify_one cv (assign b s1)))

  -- DistributedProdConsSingleCVUnlockFirst.cpp
  unfoldable pub unlock_first_produce : Bytes → T → S → Option S
  unlock_first_produce cv request s = do
    s0 ← enter s
    s1 ← wait cv (λ b. not (unlock_first_is_full b)) s0
    some (notify_one cv (leave (assign (Queue.push request (variables s1)) s1)))

  unfoldable pub unlock_first_consume : Bytes → S → Option (Option T × S)
  unlock_first_consume cv s = do
    s0 ← enter s
    s1 ← wait cv (λ b. not (unlock_first_is_empty b)) s0
    let (request, b) = Queue.take_front (variables s1) in
        some (request, notify_one cv (leave (assign b s1)))

  -- DistributedProdConsTwoCV.cpp
  unfoldable pub two_cv_produce : T → S → Option S
  two_cv_produce request s = do
    s0 ← enter s
    s1 ← wait full_cv (λ b. not (two_cv_is_full b)) s0
    some (leave (notify_one empty_cv (assign (Queue.push request (variables s1)) s1)))

  unfoldable pub two_cv_consume : S → Option (Option T × S)
  two_cv_consume s = do
    s0 ← enter s
    s1 ← wait empty_cv (λ b. not (two_cv_is_empty b)) s0
    let (request, b) = Queue.take_front (variables s1) in
        some (request, leave (notify_one full_cv (assign b s1)))

  -- `BufferAdv` of DistributedProdConsTwoMonitors.cpp
  unfoldable pub buffer_adv_produce : T → S → Option S
  buffer_adv_produce request s = do
    s0 ← enter s
    s1 ← wait full_cv (λ b. not (buffer_adv_is_full b)) s0
    some (leave (notify_one empty_cv (assign (Queue.push request (variables s1)) s1)))

  unfoldable pub buffer_adv_consume : S → Option (Option T × S)
  buffer_adv_consume s = do
    s0 ← enter s
    s1 ← wait empty_cv (λ b. not (buffer_adv_is_empty b)) s0
    let (request, b) = Queue.take_front (variables s1) in
        some (request, leave (notify_one full_cv (assign b s1)))

  -- LocalProdConsSingleCV.cpp: the monitor is a `std::mutex` with its lock and a
  -- `std::condition_variable`.
  unfoldable pub one_cond_produce : Bytes → T → S → Option S
  one_cond_produce cv request s = do
    s0 ← enter s
    s1 ← wait cv (λ b. not (one_cond_is_full b)) s0
    some (notify_all cv (leave (assign (Queue.push request (variables s1)) s1)))

  unfoldable pub one_cond_consume : Bytes → S → Option (Option T × S)
  one_cond_consume cv s = do
    s0 ← enter s
    s1 ← wait cv (λ b. not (one_cond_is_empty b)) s0
    let (request, b) = Queue.take_front (variables s1) in
        some (request, notify_all cv (leave (assign b s1)))

  -- LocalProdConsTwoCV.cpp
  unfoldable pub two_cond_produce : T → S → Option S
  two_cond_produce request s = do
    s0 ← enter s
    s1 ← wait full_cv (λ b. not (two_cond_is_full b)) s0
    some (notify_one empty_cv (leave (assign (Queue.push request (variables s1)) s1)))

  unfoldable pub two_cond_consume : S → Option (Option T × S)
  two_cond_consume s = do
    s0 ← enter s
    s1 ← wait empty_cv (λ b. not (two_cond_is_empty b)) s0
    let (request, b) = Queue.take_front (variables s1) in
        some (request, notify_one full_cv (leave (assign b s1)))

  -- LocalProdConsTwoCVMulti.cpp
  unfoldable pub multi_produce : T → S → Option S
  multi_produce request s = do
    s0 ← enter s
    s1 ← wait full_cv (λ b. not (multi_is_full b)) s0
    some (notify_all empty_cv (leave (assign (Queue.push request (variables s1)) s1)))

  unfoldable pub multi_consume : S → Option (Option T × S)
  multi_consume s = do
    s0 ← enter s
    s1 ← wait empty_cv (λ b. not (multi_is_empty b)) s0
    let (request, b) = Queue.take_front (variables s1) in
        some (request, notify_all full_cv (leave (assign b s1)))
