-- ===== src/Tests/Examples.antt =====
-- The buffers of examples/, in a monitor that one process uses alone.
use distributed_monitor.Base.{
  ℕ, ◌≡◌, refl, subst, Bool, true, [], ◌∷◌, Option, none, some, some_inj, arith, if◌then◌else◌,
  Bytes, Bool-cases, inl, inr,
}
use distributed_monitor.Examples.Ring.{Ring, fresh}
use distributed_monitor.Examples.Ring.Refine.{IsValid}
use distributed_monitor.Examples.Queue.{Buffer, Serializer}
use distributed_monitor.Communication.Clock.{other_ids}
use distributed_monitor.Exclusion.Algorithm.{Exclusion}
use distributed_monitor.Examples.Shared.{
  Transfers, ring_shared, queue_shared, ring_leave-Transfers, queue_leave-Transfers,
}
use distributed_monitor.Examples.Entry.{MonitorOps}

-- Nobody else changes the variables, so a wait for what does not hold never returns.
abbrev pub wait_alone : {V : Type 0} → (V → Bool) → V → Option V
wait_alone p v = if p v then some v else none

pub wait_alone-holds :
    {V : Type 0} (p : V → Bool) (v : V) {w : V} → wait_alone p v ≡ some w → p w ≡ true
wait_alone-holds p v {w} h = elim (Bool-cases (p v)) [
  | inl e ↦ subst (λ u. p u ≡ true) (some_inj v w (rw e at h)) e
  | inr e ↦ (let k : none ≡ some w = rw e at h in cc)
]

abbrev pub alone : (V : Type 0) → MonitorOps V V
alone V = record {
  variables = λ v. v;
  assign = λ v s. v;
  enter = λ s. some s;
  wait = λ cv p s. wait_alone p s;
  notify_one = λ cv s. s;
  notify_all = λ cv s. s;
  leave = λ s. s;
  variables-assign = λ v s. refl;
  wait_holds = λ cv p s. wait_alone-holds p s;
  variables-notify_one = λ cv s. refl;
  variables-notify_all = λ cv s. refl;
  variables-leave = λ s. refl;
}

abbrev pub ring : Ring
ring = record { buffer = 7 ∷ 0 ∷ 0 ∷ 0 ∷ 9 ∷ []; get_index = 4; put_index = 1; count = 2 }

abbrev pub ring-IsValid : IsValid ring
ring-IsValid = record { whole = refl; get_in = omega arith; count_in = omega arith; put_at = refl }

abbrev fresh-IsValid : IsValid fresh
fresh-IsValid = record { whole = refl; get_in = omega arith; count_in = omega arith; put_at = refl }

abbrev pub cv : Bytes
cv = 99 ∷ []

abbrev Numbers : Type 0
Numbers = Buffer ℕ

abbrev pub buffer : Buffer ℕ
buffer = record { max_size = 3; queue = 4 ∷ 5 ∷ [] }

-- Process 0 of two, which owns the mutex.
abbrev holder : Exclusion
holder = record {
  registered_mutexes = cv ∷ [];
  queued_mutexes = (cv, 2) ∷ [];
  received_requests = [];
  communicator = record {
    my_process_id = 0;
    number_of_processes = 2;
    other_processes = 1 ∷ [];
    current_lamport_time = 5;
  };
}

ring_leave-Transfers_example : Transfers ring_shared holder cv 1 ring fresh ring
unfolding other_ids
ring_leave-Transfers_example =
    ring_leave-Transfers holder cv ring fresh 2 1 (omega arith) refl (omega arith)
      (λ e. absurd (omega arith)) ring-IsValid fresh-IsValid

-- A serializer for bytes.
abbrev plain : Serializer ℕ
plain = record { serialize = λ q. q; deserialize = λ s. s; deserialize-serialize = λ q. refl }

queue_leave-Transfers_example :
    Transfers (queue_shared plain) holder cv 1 buffer (record { max_size = 3; queue = [] }) buffer
unfolding other_ids
queue_leave-Transfers_example =
    queue_leave-Transfers plain holder cv buffer (record { max_size = 3; queue = [] }) 2 1
      (omega arith) refl (omega arith) (λ e. absurd (omega arith))
