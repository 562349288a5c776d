-- ===== src/Monitor/Node/Destroyed.antt =====
-- What becomes of the packets of the others once a process has destroyed its monitor: the manager still
-- listens.
use distributed_monitor.Base.{
  ◌≡◌, refl, sym, subst, true, false, List, [], ◌∷◌, none, arith, Bytes, bytes_eq_refl,
}
use distributed_monitor.Base.Names
use distributed_monitor.Communication.Packet.{
  mutex_request, cond_wait, cond_wait_end, sync, type_eq, Packet,
}
use distributed_monitor.Communication.Manager.{handle, dispatch, leave, unsubscribe}
use distributed_monitor.Exclusion.Algorithm.{takes_request, unregister_mutex}
use distributed_monitor.Condition.Algorithm.{takes_wait, takes_wait_end, unregister_cv}
use distributed_monitor.Monitor.Sync.{Shared}
use distributed_monitor.Monitor.Node.{
  Running, condition_of, request_subscription, wait_subscription, wait_end_subscription, remove_cv,
  destroy_monitor,
}
use distributed_monitor.Monitor.Node.Laws.{monitor_subscriptions}

-- What another process sends about the monitor `name` with the condition variable `cv`, unasked.
pub data IsAbout (name cv : Bytes) (p : Packet) : Type 0 where
  saves : type_eq p.message_type sync ≡ true → IsAbout name cv p
  requests : type_eq p.message_type mutex_request ≡ true → p.message ≡ name → IsAbout name cv p
  waits : type_eq p.message_type cond_wait ≡ true → p.message ≡ cv → IsAbout name cv p
  returns : type_eq p.message_type cond_wait_end ≡ true → p.message ≡ cv → IsAbout name cv p

gone : (s : List Bytes) (x : Bytes) → Names.contains (Names.erase s x) x ≡ false
gone s x = ground (arith, Names.contains-erase s x x, bytes_eq_refl x)

module _ {V : Type 0} (shared : Shared V) (name cv : Bytes) where
  abbrev after : Running V → Running V
  after r = destroy_monitor 3 name (remove_cv cv r)

  -- No predicate takes it.
  untaken :
      (p : Packet) (r : Running V)
      → IsAbout name cv p
      → (takes_request (after r).node.exclusion p ≡ false)
        × (takes_wait (condition_of (after r).node) p ≡ false)
        × (takes_wait_end (condition_of (after r).node) p ≡ false)
  unfolding takes_request takes_wait takes_wait_end destroy_monitor remove_cv unregister_mutex
      unregister_cv
  untaken p r (saves t) = ground arith
  untaken p r (requests t e) = ground (
    arith,
    t,
    subst (λ z. Names.contains (Names.erase r.node.exclusion.registered_mutexes name) z ≡ false)
        (sym e) (gone r.node.exclusion.registered_mutexes name),
  )
  untaken p r (waits t e) = ground (
    arith,
    t,
    subst (λ z. Names.contains (Names.erase r.node.registered_cvs cv) z ≡ false) (sym e)
        (gone r.node.registered_cvs cv),
  )
  untaken p r (returns t e) = ground (
    arith,
    t,
    subst (λ z. Names.contains (Names.erase r.node.registered_cvs cv) z ≡ false) (sym e)
        (gone r.node.registered_cvs cv),
  )

  left_over :
      (r : Running V)
      → r.manager.subscriptions ≡ monitor_subscriptions shared name []
      → (after r).manager.subscriptions
        ≡ (0, request_subscription) ∷ (1, wait_subscription) ∷ (2, wait_end_subscription) ∷ []
  unfolding destroy_monitor remove_cv unsubscribe leave
  left_over r e = rw e refl

  -- A process that has destroyed its only monitor, with one condition variable, while its receiving
  -- thread still listens, throws at the next SYNC of another process, at the next request for the mutex,
  -- and at the next beginning or end of a wait for the condition variable.
  pub destroy_monitor-handle :
      (r : Running V) (p : Packet)
      → r.manager.subscriptions ≡ monitor_subscriptions shared name []
      → IsAbout name cv p
      → let d = destroy_monitor 3 name (remove_cv cv r) in handle d.manager p d.node ≡ none
  unfolding handle dispatch
  destroy_monitor-handle r p e about =
      let (a, b, c) = untaken p r about in ground (arith, left_over r e, a, b, c)
