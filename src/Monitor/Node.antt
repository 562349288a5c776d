-- ===== src/Monitor/Node.antt =====
-- One process of a program: the objects that its main function wires together over one
-- CommunicationManager, and the callbacks that they subscribe with.
-- `V` is what the shared variables of all its monitors are together. `out` is what was sent.
pub mod Laws
pub mod Destroyed
use distributed_monitor.Base.{
  ℕ, ◌≡◌, Bool, true, false, List, [], ◌∷◌, ◌++◌, Option, none, some, ◌>>=◌, if◌then◌else◌, Bytes,
}
use distributed_monitor.Base.Assoc.{Assoc}
use distributed_monitor.Communication.Packet.{Packet}
use distributed_monitor.Communication.Clock.{Communicator, Delivery}
use distributed_monitor.Communication.Manager.{Subscription, Manager, subscribe, unsubscribe}
use distributed_monitor.Exclusion.Algorithm.{
  Exclusion, takes_request, process_request, takes_agreement, add_agreement, queue, register_mutex,
  unregister_mutex,
}
use distributed_monitor.Condition.Algorithm.{
  Condition, takes_wait, on_wait, takes_wait_end, on_wait_end, register_cv, unregister_cv,
}
use distributed_monitor.Monitor.Sync.{Shared, takes_sync, on_sync, accepts_name}

-- `agreements` are those of the call of `acquireMutex` that is running.
pub record Node (V : Type 0) : Type 0 where
  pub exclusion : Exclusion
  pub registered_cvs : List Bytes
  pub conditional_waits : Assoc (List Packet)
  pub agreements : List Packet
  pub variables : V
  pub out : List Delivery

-- The manager with its subscriptions, and what they read and change.
pub record Running (V : Type 0) : Type 0 where
  pub manager : Manager (Node V)
  pub node : Node V

module _ {V : Type 0} where
  -- Both algorithms hold the same manager, so they share the communicator.
  abbrev pub condition_of : Node V → Condition
  condition_of s = record {
    registered_cvs = s.registered_cvs;
    conditional_waits = s.conditional_waits;
    communicator = s.exclusion.communicator;
  }

  abbrev pub put_condition : Node V → Condition → List Delivery → Node V
  put_condition s a more = record s {
    exclusion = record s.exclusion { communicator = a.communicator };
    registered_cvs = a.registered_cvs;
    conditional_waits = a.conditional_waits;
    out = s.out ++ more;
  }

  abbrev pub put_exclusion : Node V → Exclusion → List Delivery → Node V
  put_exclusion s a more = record s { exclusion = a; out = s.out ++ more }

  abbrev pub request_subscription : Subscription (Node V)
  request_subscription = record {
    predicate = λ s p. some (takes_request s.exclusion p);
    callback = λ p s. let r = process_request s.exclusion p in some (put_exclusion s r.0 r.1);
  }

  abbrev pub wait_subscription : Subscription (Node V)
  wait_subscription = record {
    predicate = λ s p. some (takes_wait (condition_of s) p);
    callback = λ p s. some (put_condition s (on_wait (condition_of s) p) []);
  }

  abbrev pub wait_end_subscription : Subscription (Node V)
  wait_end_subscription = record {
    predicate = λ s p. some (takes_wait_end (condition_of s) p);
    callback = λ p s. let r = on_wait_end (condition_of s) p in some (put_condition s r.0 r.1);
  }

  -- The subscription of `acquireMutex`.
  abbrev pub agreement_subscription : Bytes → Subscription (Node V)
  agreement_subscription name = record {
    predicate = λ s p. some (takes_agreement name p);
    callback = λ p s. elim (add_agreement s.exclusion s.agreements p) [
      | none ↦ none
      | some agreements ↦ some (record s { agreements = agreements })
    ];
  }

  abbrev pub sync_subscription : Shared V → Bytes → Subscription (Node V)
  sync_subscription shared name = record {
    predicate = λ s p. takes_sync name p;
    callback = λ p s. elim (on_sync shared p s.variables) [
      | none ↦ none
      | some v ↦ some (record s { variables = v })
    ];
  }

  -- A manager over a communicator that has just been constructed.
  abbrev pub start : Communicator → V → Running V
  start c v = record {
    manager = record { subscriptions = []; subscription_seq_no = 0 };
    node = record {
      exclusion = record {
        registered_mutexes = [];
        queued_mutexes = [];
        received_requests = [];
        communicator = c;
      };
      registered_cvs = [];
      conditional_waits = [];
      agreements = [];
      variables = v;
      out = [];
    };
  }

  abbrev pub with_subscription : Running V → Subscription (Node V) → Running V
  with_subscription r c = record r { manager = (subscribe r.manager c).0 }

  -- The constructors of the two algorithms.
  unfoldable pub construct_exclusion : Running V → Running V
  unfolding subscribe
  construct_exclusion r = with_subscription r request_subscription

  unfoldable pub construct_condition : Running V → Running V
  unfolding subscribe
  construct_condition r =
      with_subscription (with_subscription r wait_subscription) wait_end_subscription

  -- The constructor of `DistributedMonitor`, which constructs its mutex first; `none` is an
  -- assertion that fails.
  abbrev pub monitored : Shared V → Bytes → Running V → Running V
  monitored shared name r =
      let s = record r.node { exclusion = register_mutex r.node.exclusion name } in
      with_subscription (record r { node = s }) (sync_subscription shared name)

  unfoldable pub construct_monitor : Shared V → Bytes → Running V → Option (Running V)
  unfolding subscribe register_mutex accepts_name
  construct_monitor shared name r =
      if accepts_name name then some (monitored shared name r) else none

  -- The constructor of a condition variable.
  unfoldable pub add_cv : Bytes → Running V → Running V
  unfolding register_cv
  add_cv name r = record r {
    node = put_condition r.node (register_cv (condition_of r.node) name) [];
  }

  -- `~DistributedConditionVariable`
  unfoldable pub remove_cv : Bytes → Running V → Running V
  unfolding unregister_cv
  remove_cv name r = record r {
    node = put_condition r.node (unregister_cv (condition_of r.node) name) [];
  }

  -- `~DistributedMonitor` with the number of its subscription, and then that of its mutex.
  unfoldable pub destroy_monitor : ℕ → Bytes → Running V → Running V
  unfolding unsubscribe unregister_mutex
  destroy_monitor id name r = record {
    manager = unsubscribe r.manager id;
    node = record r.node { exclusion = unregister_mutex r.node.exclusion name };
  }

  -- `acquireMutex` up to its wait, with the number of its subscription, and after it.
  unfoldable pub begin_acquire : Bytes → Running V → Running V × ℕ
  unfolding subscribe queue
  begin_acquire name r =
      let (m, id) = subscribe r.manager (agreement_subscription name) in
      let (a, more) = queue r.node.exclusion name in
      (record { manager = m; node = record (put_exclusion r.node a more) { agreements = [] } }, id)

  unfoldable pub finish_acquire : ℕ → Running V → Running V
  unfolding unsubscribe
  finish_acquire id r = record r { manager = unsubscribe r.manager id }
