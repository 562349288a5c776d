-- ===== src/Monitor/Node/Laws.antt =====
-- What a process does with a packet: the manager's dispatch over the callbacks of all objects.
use distributed_monitor.Base.{
  ℕ, ◌≤◌, ◌≡◌, refl, sym, subst, ◌∙◌, Bool, true, false, List, [], ◌∷◌, ◌++◌, append-nil, Option,
  none, some, arith, if◌then◌else◌, Bytes, inl, inr, ◌⊎◌, ◌<◌, length,
}
use distributed_monitor.Base.Names
use distributed_monitor.Communication.Packet.{
  MessageType, mutex_request, mutex_agreement, cond_wait, cond_wait_end, cond_wait_end_confirm,
  cond_notify, sync, other, code_type, Packet,
}
use distributed_monitor.Communication.Clock.{Communicator, Delivery}
use distributed_monitor.Communication.Manager.{
  Subscription, Manager, enter, handle, dispatch, finish,
}
use distributed_monitor.Communication.Simple.Laws.{IsValue}
use distributed_monitor.Exclusion.Algorithm.{takes_request, takes_agreement}
use distributed_monitor.Exclusion.System.{Main, running, acquiring, Process, on_packet}
use distributed_monitor.Condition.Algorithm.{takes_wait, takes_wait_end}
use distributed_monitor.Monitor.Sync.{Shared, accepts_name, takes_sync}
use distributed_monitor.Monitor.Node.{
  Node, Running, request_subscription, wait_subscription, wait_end_subscription,
  agreement_subscription, sync_subscription, start, construct_exclusion, construct_condition,
  construct_monitor, monitored,
}

-- A value of the enumeration that has no name has none of the codes with a name.
unnamed_code : (c : ℕ) → code_type c ≡ other c → 6 < c
unfolding code_type
unnamed_code c h = ground arith

IsValue_request : IsValue mutex_request
unfolding code_type
IsValue_request = (omega arith, refl)

IsValue_agreement : IsValue mutex_agreement
unfolding code_type
IsValue_agreement = (omega arith, refl)

module _ {V : Type 0} (shared : Shared V) (name : Bytes) where
  -- What a process with one monitor has subscribed with, and what `acquireMutex` adds.
  abbrev pub monitor_subscriptions :
      List (ℕ × Subscription (Node V)) → List (ℕ × Subscription (Node V))
  monitor_subscriptions rest =
      (0, request_subscription)
      ∷ (1, wait_subscription)
      ∷ (2, wait_end_subscription)
      ∷ (3, sync_subscription shared name)
      ∷ rest

  abbrev pub sync_handle : Packet → Node V → Option Bool → Option (Node V)
  sync_handle p s none = none
  sync_handle p s (some false) = none
  sync_handle p s (some true) = (sync_subscription shared name).callback p s

  -- What the process does with a packet, by its type.
  abbrev pub handle_by : Option Bytes → Packet → Node V → MessageType → Option (Node V)
  handle_by wanted p s mutex_request =
      if Names.contains s.exclusion.registered_mutexes p.message
      then request_subscription.callback p s
      else none
  handle_by none p s mutex_agreement = none
  handle_by (some wanted) p s mutex_agreement =
      if takes_agreement wanted p then (agreement_subscription wanted).callback p s else none
  handle_by wanted p s cond_wait =
      if Names.contains s.registered_cvs p.message then wait_subscription.callback p s else none
  handle_by wanted p s cond_wait_end =
      if Names.contains s.registered_cvs p.message then wait_end_subscription.callback p s else none
  handle_by wanted p s sync = sync_handle p s (takes_sync name p)
  handle_by wanted p s cond_wait_end_confirm = none
  handle_by wanted p s cond_notify = none
  handle_by wanted p s (other c) = none

  abbrev pub acquiring_subscriptions : Option Bytes → List (ℕ × Subscription (Node V))
  acquiring_subscriptions none = []
  acquiring_subscriptions (some wanted) = (4, agreement_subscription wanted) ∷ []

  unnamed :
      (wanted : Option Bytes) (s : Node V) (time source c : ℕ) (message : Bytes)
      → 6 < c
      → let p : Packet = record {
        lamport_time = time;
        source = source;
        message_type = other c;
        message = message;
      } in
        finish (dispatch (monitor_subscriptions (acquiring_subscriptions wanted)) p s false) ≡ none
  unfolding dispatch takes_request takes_agreement takes_wait takes_wait_end takes_sync
  unnamed none s time source c message h = ground arith
  unnamed (some w) s time source c message h = ground arith

  -- The same for a packet that is given by its parts.
  by_type :
      (wanted : Option Bytes) (s : Node V) (time source : ℕ) (t : MessageType) (message : Bytes)
      → IsValue t
      → let p : Packet = record {
        lamport_time = time;
        source = source;
        message_type = t;
        message = message;
      } in
        finish (dispatch (monitor_subscriptions (acquiring_subscriptions wanted)) p s false)
        ≡ handle_by wanted p s t
  unfolding dispatch takes_request takes_agreement takes_wait takes_wait_end takes_sync
  by_type none s time source mutex_request message v = ground arith
  by_type (some w) s time source mutex_request message v = ground arith
  by_type none s time source mutex_agreement message v = ground arith
  by_type (some w) s time source mutex_agreement message v = ground arith
  by_type none s time source cond_wait message v = ground arith
  by_type (some w) s time source cond_wait message v = ground arith
  by_type none s time source cond_wait_end message v = ground arith
  by_type (some w) s time source cond_wait_end message v = ground arith
  by_type none s time source cond_wait_end_confirm message v = refl
  by_type (some w) s time source cond_wait_end_confirm message v = refl
  by_type none s time source cond_notify message v = refl
  by_type (some w) s time source cond_notify message v = refl
  by_type none s time source sync message v = ground arith
  by_type (some w) s time source sync message v = ground arith
  by_type none s time source (other c) message v =
      unnamed none s time source c message (unnamed_code c v.1)
  by_type (some w) s time source (other c) message v =
      unnamed (some w) s time source c message (unnamed_code c v.1)

  -- Dispatch: a process with one monitor and, while it acquires a mutex, the subscription for the
  -- agreements, does with a packet just what the one subscription for its type does, if that accepts
  -- the packet, and else throws. The type is a value of the enumeration.
  pub handle-handle_by :
      (m : Manager (Node V)) (wanted : Option Bytes) (p : Packet) (s : Node V)
      → m.subscriptions ≡ monitor_subscriptions (acquiring_subscriptions wanted)
      → IsValue p.message_type
      → handle m p s ≡ handle_by wanted p s p.message_type
  unfolding handle
  handle-handle_by m wanted p s e v =
      rw e (by_type wanted s p.lamport_time p.source p.message_type p.message v)

  -- What the system's handler does to a process, done to the node.
  abbrev pub agreements_of : Main → List Packet
  agreements_of (acquiring _ agreements) = agreements
  agreements_of _ = []

  abbrev pub after_packet : Node V → Option (Process × List Delivery) → Option (Node V)
  after_packet s none = none
  after_packet s (some (p, more)) =
      some (record s {
        exclusion = p.exclusion;
        agreements = agreements_of p.main;
        out = s.out ++ more;
      })

  abbrev pub main_of : Option Bytes → Node V → Main
  main_of none s = running
  main_of (some wanted) s = acquiring wanted s.agreements

  abbrev pub process_of : Option Bytes → Packet → Node V → Process
  process_of wanted p s = record { exclusion = s.exclusion; main = main_of wanted s; hand = some p }

  by_request :
      (wanted : Option Bytes) (s : Node V) (time source : ℕ) (message : Bytes)
      → (wanted ≡ none → s.agreements ≡ [])
      → let p : Packet = record {
        lamport_time = time;
        source = source;
        message_type = mutex_request;
        message = message;
      } in
        handle_by wanted p s mutex_request ≡ after_packet s (on_packet (process_of wanted p s) p)
  unfolding on_packet takes_request takes_agreement
  by_request none s time source message a = ground (arith, a refl)
  by_request (some w) s time source message a = ground arith

  by_agreement :
      (wanted : Option Bytes) (s : Node V) (time source : ℕ) (message : Bytes)
      → let p : Packet = record {
        lamport_time = time;
        source = source;
        message_type = mutex_agreement;
        message = message;
      } in
        handle_by wanted p s mutex_agreement ≡ after_packet s (on_packet (process_of wanted p s) p)
  unfolding on_packet takes_request takes_agreement
  by_agreement none s time source message = refl
  by_agreement (some w) s time source message = ground (arith, append-nil s.out)

  -- The handler of the system of all processes is what the manager does: for a request or an
  -- agreement, in a process with one monitor that holds no agreements while it acquires nothing, both
  -- throw or both give the same object, agreements and packets sent.
  pub handle-on_packet :
      (m : Manager (Node V)) (wanted : Option Bytes) (p : Packet) (s : Node V)
      → m.subscriptions ≡ monitor_subscriptions (acquiring_subscriptions wanted)
      → (p.message_type ≡ mutex_request) ⊎ (p.message_type ≡ mutex_agreement)
      → (wanted ≡ none → s.agreements ≡ [])
      → handle m p s ≡ after_packet s (on_packet (process_of wanted p s) p)
  handle-on_packet m wanted p s e (inl t) a =
      handle-handle_by m wanted p s e (rw t IsValue_request)
      ∙ subst
          (λ z.
            let q : Packet = record {
              lamport_time = p.lamport_time;
              source = p.source;
              message_type = z;
              message = p.message;
            } in
            handle_by wanted q s z ≡ after_packet s (on_packet (process_of wanted q s) q))
          (sym t) (by_request wanted s p.lamport_time p.source p.message a)
  handle-on_packet m wanted p s e (inr t) a =
      handle-handle_by m wanted p s e (rw t IsValue_agreement)
      ∙ subst
          (λ z.
            let q : Packet = record {
              lamport_time = p.lamport_time;
              source = p.source;
              message_type = z;
              message = p.message;
            } in
            handle_by wanted q s z ≡ after_packet s (on_packet (process_of wanted q s) q))
          (sym t) (by_agreement wanted s p.lamport_time p.source p.message)

-- The constructors, in the order of the main functions, leave a process with one monitor with those
-- subscriptions and with its mutex registered, if the name has at most 255 bytes.
pub construct_monitor-subscriptions :
    {V : Type 0} (shared : Shared V) (name : Bytes) (c : Communicator) (v : V)
    → length name ≤ 255
    → (r : Running V) × (construct_monitor shared name
          (construct_condition (construct_exclusion (start c v)))
        ≡ some r)
      × (r.manager.subscriptions ≡ monitor_subscriptions shared name [])
      × (r.node.exclusion.registered_mutexes ≡ name ∷ [])
      × (r.node.exclusion.communicator ≡ c)
      × (r.node.variables ≡ v)
unfolding construct_monitor construct_condition construct_exclusion enter Names.insert
    Names.contains
construct_monitor-subscriptions shared name c v h = (
  monitored shared name (construct_condition (construct_exclusion (start c v))),
  rw fits,
  refl,
  refl,
  refl,
  refl,
)
  where
    fits : accepts_name name ≡ true
    fits = unfold accepts_name in ground arith
