-- ===== src/Condition/Notified.antt =====
-- `notifyOne` and `notifyAll` as steps of the system: between their two locks the receiving thread may
-- run.
use distributed_monitor.Base.{ℕ, ◌≡◌, true, List, [], Bytes}
use distributed_monitor.Communication.Packet.{Packet}
use distributed_monitor.Communication.Clock.{Delivery}
use distributed_monitor.Condition.Algorithm.{Condition, is_empty}
use distributed_monitor.Condition.System.{outside, notifying, Member, Act}

-- A process goes on with condition `a` and has sent `out`. It has no entry for any condition variable;
-- or it finds nobody; or it finds those to notify, and goes on to the end of the notification.
pub data Notifies (name : Bytes) (m : Member) (recipients : List ℕ)
    : Condition → List Delivery → Type 0 where
  never : is_empty m.condition.conditional_waits ≡ true → Notifies name m recipients m.condition []
  found :
      {m' : Member}
      → recipients ≡ []
      → Act name true m m' []
      → Notifies name m recipients m'.condition []
  sent :
      {m' m'' : Member} {out : List Delivery}
      → Act name true m m' []
      → m'.stage ≡ notifying recipients
      → Act name true m' m'' out
      → m''.stage ≡ outside
      → Notifies name m recipients m''.condition out
