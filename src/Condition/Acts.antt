-- ===== src/Condition/Acts.antt =====
-- What a step of one process is for the process itself and for each other one.
use distributed_monitor.Base.{
  ℕ, ◌≡◌, ◌⊎◌, refl, sym, ap, ◌∙◌, Bool, true, false, List, [], arith, if◌then◌else◌, count, All,
  Bytes, bytes_eq_refl, inl, inr,
}
use distributed_monitor.Communication.Packet.{
  MessageType, type_eq, Packet, cond_wait, cond_wait_end, cond_notify,
}
use distributed_monitor.Communication.Clock.{Delivery, tick, send, send_others}
use distributed_monitor.Communication.Clock.Laws.{one_at}
use distributed_monitor.Exclusion.Defs.{weigh}
use distributed_monitor.Exclusion.Network.{sent_to}
use distributed_monitor.Condition.Algorithm.{waiting, touch, begin_wait, end_wait}
use distributed_monitor.Condition.System
use distributed_monitor.Condition.System.{
  Stage, outside, notifying, sleeping, confirming, Member, first_source, Act, find_one, find_none,
  find_all, notify, start_wait, stop_wait, confirmed,
}
use distributed_monitor.Condition.Protocol.{aims, received}
use distributed_monitor.Condition.Members.{
  call, end, note, IsOurs, Local, sent_to-spread_zero, All-sent_to-spread, sent_to_self,
  waiting-touch, sources-from, first_source-from,
}

-- The stages in which a process keeps the mutex.
abbrev pub holds : Stage → Bool
holds outside = false
holds (notifying _) = true
holds sleeping = false
holds (confirming _) = true

module _ (name : Bytes) (n i : ℕ) where
  -- What process `i` sends about the condition variable.
  abbrev pub ours : Member → MessageType → Packet
  ours m t = record {
    lamport_time = (tick m.condition.communicator).current_lamport_time;
    source = m.condition.communicator.my_process_id;
    message_type = t;
    message = name;
  }

  pub weigh-ours :
      {m : Member} (t u : MessageType)
      → Local name n i m
      → weigh u name i (ours m t) ≡ (if type_eq t u then 1 else 0)
  weigh-ours t u l = ground (arith, l.rank, bytes_eq_refl name)

  -- A process that goes on at another stage, and that knows as little of itself as before.
  Local-stage :
      {m : Member} (m' : Member)
      → Local name n i m
      → m'.condition.communicator.my_process_id ≡ m.condition.communicator.my_process_id
      → m'.condition.communicator.number_of_processes ≡ m.condition.communicator.number_of_processes
      → m'.condition.communicator.other_processes ≡ m.condition.communicator.other_processes
      → m'.condition.registered_cvs ≡ m.condition.registered_cvs
      → waiting name m'.condition ≡ waiting name m.condition
      → aims i m'.stage ≡ 0
      → received m'.stage ≡ []
      → Local name n i m'
  Local-stage m' l ei es eo er ew a e = record {
    rank = ei ∙ l.rank;
    size = es ∙ l.size;
    others = eo ∙ l.others;
    registered = rw er l.registered;
    strangers = rw ew l.strangers;
    not_self = a;
    collected = rw e tt;
  }

  module _ {owned : Bool} {m : Member} (l : Local name n i m) where
    pub Act-Local :
        {m' : Member} {out : List Delivery} → Act name owned m m' out → Local name n i m'
    unfolding begin_wait end_wait send_others send tick touch
    Act-Local (find_one {recipient} o e f) =
        Local-stage _ l refl refl refl refl (waiting-touch name m.condition)
          (omega (
            arith,
            l.strangers,
            first_source-from i (waiting name m.condition),
            ap (count (one_at i)) f,
          ))
          refl
    Act-Local (find_none o e f) =
        Local-stage _ l refl refl refl refl (waiting-touch name m.condition) l.not_self
          (ap received e)
    Act-Local (find_all o e f) =
        Local-stage _ l refl refl refl refl (waiting-touch name m.condition)
          (omega (arith, l.strangers, sources-from i (waiting name m.condition))) refl
    Act-Local (notify e) = Local-stage _ l refl refl refl refl refl refl refl
    Act-Local (start_wait o e) = Local-stage _ l refl refl refl refl refl refl refl
    Act-Local (stop_wait o e) = Local-stage _ l refl refl refl refl refl refl refl
    Act-Local (confirmed e f) = Local-stage _ l refl refl refl refl refl refl refl
    Act-Local (System.tick t) = record {
      rank = l.rank;
      size = l.size;
      others = l.others;
      registered = l.registered;
      strangers = l.strangers;
      not_self = l.not_self;
      collected = l.collected;
    }

    -- Every packet that it sends is its own, and none goes to itself.
    pub Act-IsOurs :
        {m' : Member} {out : List Delivery} (b : ℕ)
        → Act name owned m m' out
        → All (IsOurs name i) (sent_to b out)
    unfolding begin_wait end_wait send_others send tick
    Act-IsOurs b (find_one o e f) = tt
    Act-IsOurs b (find_none o e f) = tt
    Act-IsOurs b (find_all o e f) = tt
    Act-IsOurs b (notify {recipients} e) =
        All-sent_to-spread (IsOurs name i) b (ours m cond_notify) recipients
          (l.rank, refl, note, refl)
    Act-IsOurs b (start_wait o e) =
        All-sent_to-spread (IsOurs name i) b (ours m cond_wait)
          m.condition.communicator.other_processes (l.rank, refl, call, refl)
    Act-IsOurs b (stop_wait o e) =
        All-sent_to-spread (IsOurs name i) b (ours m cond_wait_end)
          m.condition.communicator.other_processes (l.rank, refl, end, refl)
    Act-IsOurs b (confirmed e f) = tt
    Act-IsOurs b (System.tick t) = tt

    pub Act-silent :
        {m' : Member} {out : List Delivery} → Act name owned m m' out → sent_to i out ≡ []
    unfolding begin_wait end_wait send_others send tick
    Act-silent (find_one o e f) = refl
    Act-silent (find_none o e f) = refl
    Act-silent (find_all o e f) = refl
    Act-silent (notify {recipients} e) =
        sent_to-spread_zero i (ours m cond_notify) recipients (sym (ap (aims i) e) ∙ l.not_self)
    Act-silent (start_wait o e) = rw l.others (sent_to_self (ours m cond_wait) n i)
    Act-silent (stop_wait o e) = rw l.others (sent_to_self (ours m cond_wait_end) n i)
    Act-silent (confirmed e f) = refl
    Act-silent (System.tick t) = refl

    -- A process comes to keep the mutex only when it owns it.
    pub Act-holds :
        {m' : Member} {out : List Delivery}
        → Act name owned m m' out
        → holds m'.stage ≡ true
        → (holds m.stage ≡ true) ⊎ (owned ≡ true)
    Act-holds (find_one o e f) h = inr o
    Act-holds (find_none o e f) h = inr o
    Act-holds (find_all o e f) h = inr o
    Act-holds (notify e) h = cc
    Act-holds (start_wait o e) h = cc
    Act-holds (stop_wait o e) h = inr o
    Act-holds (confirmed e f) h = cc
    Act-holds (System.tick t) h = inl h
