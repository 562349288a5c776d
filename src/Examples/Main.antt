-- ===== src/Examples/Main.antt =====
-- The main functions of the example programs: the objects that they construct, in order, and the
-- first `k` rounds of their loops, which have no end.
use distributed_monitor.Base.{
  ℕ, zero, suc, ◌+◌, ◌%◌, [], ◌∷◌, Option, some, ◌>>=◌, ◌==◌, if◌then◌else◌, Bytes,
}
use distributed_monitor.Communication.Clock.{Communicator}
use distributed_monitor.Monitor.Sync.{Shared}
use distributed_monitor.Monitor.Node.{
  Running, start, construct_exclusion, construct_condition, construct_monitor, add_cv,
}
use distributed_monitor.Examples.Ring.{Ring, fresh, max_queue_size}
use distributed_monitor.Examples.Queue.{Buffer, Serializer}
use distributed_monitor.Examples.Entry.{MonitorOps}
use distributed_monitor.Examples.Members.{
  simple_two_cv_fresh, buffer_simple_fresh, unlock_first_empty, two_cv_empty, buffer_adv_empty,
}
use distributed_monitor.Examples.Shared.{
  ring_shared, queue_shared, simple_two_cv_shared, buffer_simple_shared, unlock_first_shared,
  two_cv_shared, buffer_adv_shared,
}
use distributed_monitor.Examples.Programs.{
  empty_cv, full_cv, simple_produce, simple_consume, simple_two_cv_produce, simple_two_cv_consume,
  buffer_simple_produce, buffer_simple_consume, single_cv_produce, single_cv_consume,
  unlock_first_produce, unlock_first_consume, two_cv_produce, two_cv_consume, buffer_adv_produce,
  buffer_adv_consume, one_cond_produce, one_cond_consume, two_cond_produce, two_cond_consume,
  multi_produce, multi_consume,
}

-- "testMon", "testMonAdv" and "testMonSimple"
abbrev pub test_mon : Bytes
test_mon = 116 ∷ 101 ∷ 115 ∷ 116 ∷ 77 ∷ 111 ∷ 110 ∷ []

abbrev pub test_mon_adv : Bytes
test_mon_adv = 116 ∷ 101 ∷ 115 ∷ 116 ∷ 77 ∷ 111 ∷ 110 ∷ 65 ∷ 100 ∷ 118 ∷ []

abbrev pub test_mon_simple : Bytes
test_mon_simple = 116 ∷ 101 ∷ 115 ∷ 116 ∷ 77 ∷ 111 ∷ 110 ∷ 83 ∷ 105 ∷ 109 ∷ 112 ∷ 108 ∷ 101 ∷ []

-- The manager and the two algorithms, over a communicator.
abbrev pub algorithms : {V : Type 0} → Communicator → V → Running V
algorithms c v = construct_condition (construct_exclusion (start c v))

-- The constructor of the `BufferMonitor` whose condition variable has the monitor's name.
unfoldable pub single_cv_monitor : {V : Type 0} → Shared V → Bytes → Running V → Option (Running V)
single_cv_monitor shared name r = do r' ← construct_monitor shared name r; some (add_cv name r')

-- The constructor of the `BufferMonitor` with two condition variables.
unfoldable pub two_cv_monitor : {V : Type 0} → Shared V → Bytes → Running V → Option (Running V)
two_cv_monitor shared name r = do
  r' ← construct_monitor shared name r
  some (add_cv full_cv (add_cv empty_cv r'))

-- The constructors of the other classes, by program.
module _ {V : Type 0} where
  abbrev pub single_cv_queue_monitor : Shared V → Bytes → Running V → Option (Running V)
  single_cv_queue_monitor = single_cv_monitor

  abbrev pub unlock_first_monitor : Shared V → Bytes → Running V → Option (Running V)
  unlock_first_monitor = single_cv_monitor

  abbrev pub two_cv_queue_monitor : Shared V → Bytes → Running V → Option (Running V)
  two_cv_queue_monitor = two_cv_monitor

  abbrev pub buffer_adv_monitor : Shared V → Bytes → Running V → Option (Running V)
  buffer_adv_monitor = two_cv_monitor

  abbrev pub buffer_simple_monitor : Shared V → Bytes → Running V → Option (Running V)
  buffer_simple_monitor = single_cv_monitor

unfoldable pub simple_setup : Communicator → Option (Running Ring)
unfolding single_cv_monitor
simple_setup c = single_cv_monitor ring_shared test_mon (algorithms c fresh)

unfoldable pub simple_two_cv_setup : Communicator → Option (Running Ring)
unfolding two_cv_monitor
simple_two_cv_setup c =
    two_cv_monitor simple_two_cv_shared test_mon (algorithms c simple_two_cv_fresh)

module _ {T : Type 0} (serializer : Serializer T) where
  abbrev pub empty_buffer : Buffer T
  empty_buffer = record { max_size = max_queue_size; queue = [] }

  unfoldable pub single_cv_setup : Communicator → Option (Running (Buffer T))
  unfolding single_cv_monitor
  single_cv_setup c =
      single_cv_queue_monitor (queue_shared serializer) test_mon (algorithms c empty_buffer)

  unfoldable pub unlock_first_setup : Communicator → Option (Running (Buffer T))
  unfolding single_cv_monitor
  unlock_first_setup c =
      unlock_first_monitor (unlock_first_shared serializer) test_mon
        (algorithms c (unlock_first_empty max_queue_size))

  unfoldable pub two_cv_setup : Communicator → Option (Running (Buffer T))
  unfolding two_cv_monitor
  two_cv_setup c =
      two_cv_queue_monitor (two_cv_shared serializer) test_mon
        (algorithms c (two_cv_empty max_queue_size))

  -- The shared variables of one of two monitors.
  abbrev pub of_adv : {W : Type 0} → Shared W → Shared (W × Ring)
  of_adv shared = record {
    save_state = λ v. shared.save_state v.0;
    restore_state = λ s v. (shared.restore_state s v.0, v.1);
  }

  abbrev pub of_simple : {W : Type 0} → Shared Ring → Shared (W × Ring)
  of_simple shared = record {
    save_state = λ v. shared.save_state v.1;
    restore_state = λ s v. (v.0, shared.restore_state s v.1);
  }

  unfoldable pub two_monitors_setup : Communicator → Option (Running (Buffer T × Ring))
  unfolding two_cv_monitor single_cv_monitor
  two_monitors_setup c = do
    r ←
        buffer_adv_monitor (of_adv (buffer_adv_shared serializer)) test_mon_adv
          (algorithms c (buffer_adv_empty max_queue_size, buffer_simple_fresh))
    buffer_simple_monitor (of_simple buffer_simple_shared) test_mon_simple r

-- `while (true) { produce(i); i = (i + 1) % MAX_QUEUE_SIZE; }`
unfoldable pub produce_rounds : {S : Type 0} → (ℕ → S → Option S) → ℕ → ℕ → S → Option S
produce_rounds produce zero i s = some s
produce_rounds produce (suc k) i s = do
  s' ← produce i s
  produce_rounds produce k ((i + 1) % max_queue_size) s'

-- `while (true) consume();`
unfoldable pub consume_rounds : {R S : Type 0} → (S → Option (R × S)) → ℕ → S → Option S
consume_rounds consume zero s = some s
consume_rounds consume (suc k) s = do r ← consume s; consume_rounds consume k r.1

-- Processes of even rank produce, the others consume.
unfoldable pub by_parity :
    {R S : Type 0} → (ℕ → S → Option S) → (S → Option (R × S)) → ℕ → ℕ → S → Option S
unfolding produce_rounds consume_rounds
by_parity produce consume rank k s =
    if rank % 2 == 0 then produce_rounds produce k 0 s else consume_rounds consume k s

module _ {S : Type 0} (ops : MonitorOps Ring S) where
  unfoldable pub simple_main : ℕ → ℕ → S → Option S
  unfolding by_parity
  simple_main = by_parity (simple_produce ops test_mon) (simple_consume ops test_mon)

  unfoldable pub simple_two_cv_main : ℕ → ℕ → S → Option S
  unfolding by_parity
  simple_two_cv_main = by_parity (simple_two_cv_produce ops) (simple_two_cv_consume ops)

module _ {S : Type 0} (ops : MonitorOps (Buffer ℕ) S) where
  unfoldable pub single_cv_main : ℕ → ℕ → S → Option S
  unfolding by_parity
  single_cv_main = by_parity (single_cv_produce ops test_mon) (single_cv_consume ops test_mon)

  unfoldable pub unlock_first_main : ℕ → ℕ → S → Option S
  unfolding by_parity
  unlock_first_main =
      by_parity (unlock_first_produce ops test_mon) (unlock_first_consume ops test_mon)

  unfoldable pub two_cv_main : ℕ → ℕ → S → Option S
  unfolding by_parity
  two_cv_main = by_parity (two_cv_produce ops) (two_cv_consume ops)

  -- The threads of the local programs.
  unfoldable pub one_cond_producer : Bytes → ℕ → S → Option S
  unfolding produce_rounds
  one_cond_producer cv k s = produce_rounds (one_cond_produce ops cv) k 0 s

  unfoldable pub one_cond_consumer : Bytes → ℕ → S → Option S
  unfolding consume_rounds
  one_cond_consumer cv k s = consume_rounds (one_cond_consume ops cv) k s

  unfoldable pub two_cond_producer : ℕ → S → Option S
  unfolding produce_rounds
  two_cond_producer k s = produce_rounds (two_cond_produce ops) k 0 s

  unfoldable pub two_cond_consumer : ℕ → S → Option S
  unfolding consume_rounds
  two_cond_consumer k s = consume_rounds (two_cond_consume ops) k s

  unfoldable pub producer_func : ℕ → S → Option S
  unfolding produce_rounds
  producer_func k s = produce_rounds (multi_produce ops) k 0 s

  unfoldable pub consumer_func : ℕ → S → Option S
  unfolding consume_rounds
  consumer_func k s = consume_rounds (multi_consume ops) k s

-- The two monitors of DistributedProdConsTwoMonitors.cpp in one process.
module _ {S : Type 0} (adv : MonitorOps (Buffer ℕ) S) (simple : MonitorOps Ring S) where
  abbrev pub produce_both : ℕ → S → Option S
  produce_both i s = do
    s' ← buffer_adv_produce adv i s
    buffer_simple_produce simple test_mon_simple i s'

  abbrev pub consume_both : S → Option (ℕ × S)
  consume_both s = do r ← buffer_adv_consume adv s; buffer_simple_consume simple test_mon_simple r.1

  unfoldable pub two_monitors_main : ℕ → ℕ → S → Option S
  unfolding by_parity
  two_monitors_main = by_parity produce_both consume_both
