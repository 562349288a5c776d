-- ===== src/Condition/Laws.antt =====
-- What the handlers and the notifications of a condition variable do.
use distributed_monitor.Base.{
  ℕ, ◌+◌, ◌≡◌, ◌≢◌, List, [], ◌∷◌, arith, if◌then◌else◌, count, Bytes, bytes_eq, bytes_eq_iff,
  bytes_eq_refl,
}
use distributed_monitor.Base.Assoc
use distributed_monitor.Base.Assoc.{Assoc}
use distributed_monitor.Communication.Packet.{cond_wait_end_confirm, Packet, insert_ordered}
use distributed_monitor.Communication.Clock.{tick, send, send_one}
use distributed_monitor.Exclusion.Network.{sent_to}
use distributed_monitor.Condition.Algorithm.{Condition, waiting, on_wait, on_wait_end, notify_one}
use distributed_monitor.Condition.Waiters.{
  stamp_at, IsAscending, insert_ordered-IsAscending, insert_ordered-fresh, insert_ordered-taken,
}

waiting-assign :
    (name other : Bytes) (v : List Packet) (m : Assoc (List Packet))
    → Assoc.at [] other (Assoc.assign name v m)
      ≡ (if bytes_eq name other then v else Assoc.at [] other m)
unfolding Assoc.at
waiting-assign name other v m = ground (arith, Assoc.find-assign name other v m)

-- What a COND_WAIT does to the waiters of any condition variable.
pub waiting-on_wait :
    (a : Condition) (p : Packet) (name : Bytes)
    → waiting name (on_wait a p)
      ≡ (if bytes_eq p.message name then insert_ordered (waiting name a) p else waiting name a)
unfolding on_wait
waiting-on_wait a p name = ground (
  arith,
  waiting-assign p.message name (insert_ordered (waiting p.message a) p) a.conditional_waits,
  bytes_eq_iff p.message name,
)

-- A COND_WAIT changes the waiters of its own condition variable only, by an insertion there, and
-- waiters in ascending order of their stamps stay so.
pub on_wait-IsAscending :
    (a : Condition) (p : Packet) (name : Bytes)
    → IsAscending (waiting name a)
    → (waiting name (on_wait a p)
        ≡ (if bytes_eq p.message name then insert_ordered (waiting name a) p else waiting name a))
      × IsAscending (waiting name (on_wait a p))
on_wait-IsAscending a p name h = (
  waiting-on_wait a p name,
  ground (arith, waiting-on_wait a p name, insert_ordered-IsAscending (waiting name a) p),
)

-- Two processes whose COND_WAIT carry the same stamp: with waiters in ascending order, the second
-- to arrive is not stored.
pub on_wait-same_stamp :
    (a : Condition) (p : Packet)
    → IsAscending (waiting p.message a)
    → count (stamp_at p.lamport_time) (waiting p.message a) ≢ 0
    → waiting p.message (on_wait a p) ≡ waiting p.message a
unfolding on_wait
on_wait-same_stamp a p h ne = ground (
  arith,
  waiting-assign p.message p.message (insert_ordered (waiting p.message a) p) a.conditional_waits,
  bytes_eq_refl p.message,
  insert_ordered-taken (waiting p.message a) p h ne,
)

-- A COND_WAIT with a stamp that no waiter has is added to those that wait, whatever is counted of
-- them.
pub on_wait-fresh :
    (w : Packet → ℕ) (a : Condition) (p : Packet)
    → count (stamp_at p.lamport_time) (waiting p.message a) ≡ 0
    → count w (waiting p.message (on_wait a p)) ≡ w p + count w (waiting p.message a)
unfolding on_wait
on_wait-fresh w a p h = ground (
  arith,
  waiting-assign p.message p.message (insert_ordered (waiting p.message a) p) a.conditional_waits,
  bytes_eq_refl p.message,
  insert_ordered-fresh w (waiting p.message a) p h,
)

-- A COND_WAIT_END is confirmed to its sender; it removes all that wait on the condition variable,
-- whoever they are, and none that waits on another.
pub on_wait_end_lem :
    (a : Condition) (p : Packet) (name : Bytes)
    → waiting name (on_wait_end a p).0 ≡ (if bytes_eq p.message name then [] else waiting name a)
      × (sent_to p.source (on_wait_end a p).1
          ≡ record {
            lamport_time = (tick a.communicator).current_lamport_time;
            source = a.communicator.my_process_id;
            message_type = cond_wait_end_confirm;
            message = p.message;
          }
            ∷ [])
unfolding on_wait_end send_one send tick Assoc.at
on_wait_end_lem a p name =
    (ground (arith, Assoc.find-erase p.message name a.conditional_waits), ground arith)

-- After a COND_WAIT_END for a condition variable a notification reaches nobody, also where another
-- process than its sender waits.
pub notify_one-wait_end :
    (a : Condition) (p : Packet) → (notify_one (on_wait_end a p).0 p.message).1 ≡ []
unfolding notify_one
notify_one-wait_end a p = ground (arith, (on_wait_end_lem a p p.message).0, bytes_eq_refl p.message)
