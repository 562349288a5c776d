-- ===== src/Condition/Algorithm.antt =====
-- The members of one process's object, the subscriptions of its constructor, `notifyOne`,
-- `notifyAll`, and the parts of `wait`. Logging is left out.
use distributed_monitor.Base.{
  ℕ, ◌+◌, ◌-◌, ◌%◌, ◌^◌, Bool, true, false, ◌&&◌, List, [], ◌∷◌, ◌==◌, if◌then◌else◌, length, any,
  Bytes, bytes_eq,
}
use distributed_monitor.Base.Assoc
use distributed_monitor.Base.Assoc.{Assoc}
use distributed_monitor.Base.Names
use distributed_monitor.Communication.Packet.{
  cond_wait, cond_wait_end, cond_wait_end_confirm, cond_notify, type_eq, Packet, insert,
  insert_ordered,
}
use distributed_monitor.Communication.Clock.{Communicator, Delivery, send, send_one, send_others}

pub record Condition : Type 0 where
  pub registered_cvs : List Bytes
  pub conditional_waits : Assoc (List Packet)
  pub communicator : Communicator

unfoldable pub register_cv : Condition → Bytes → Condition
register_cv a name = record a { registered_cvs = Names.insert a.registered_cvs name }

unfoldable pub unregister_cv : Condition → Bytes → Condition
unregister_cv a name = record a { registered_cvs = Names.erase a.registered_cvs name }

unfoldable pub takes_wait : Condition → Packet → Bool
takes_wait a p = type_eq p.message_type cond_wait && Names.contains a.registered_cvs p.message

-- The processes that wait, as this process knows them, the earliest stamp first.
abbrev pub waiting : Bytes → Condition → List Packet
waiting name a = Assoc.at [] name a.conditional_waits

unfoldable pub on_wait : Condition → Packet → Condition
unfolding Assoc.at Assoc.assign insert_ordered
on_wait a p = record a {
  conditional_waits =
      Assoc.assign p.message (insert_ordered (waiting p.message a) p) a.conditional_waits;
}

unfoldable pub takes_wait_end : Condition → Packet → Bool
takes_wait_end a p =
    type_eq p.message_type cond_wait_end && Names.contains a.registered_cvs p.message

unfoldable pub on_wait_end : Condition → Packet → Condition × List Delivery
unfolding Assoc.erase send_one
on_wait_end a p =
    let (c, _, out) = send_one a.communicator cond_wait_end_confirm p.message p.source in
    (
      record a { conditional_waits = Assoc.erase p.message a.conditional_waits; communicator = c },
      out,
    )

-- `conditionalWaits[name]` makes an entry where there was none.
unfoldable pub touch : Bytes → Condition → Condition
unfolding Assoc.at Assoc.assign
touch name a = record a {
  conditional_waits = Assoc.assign name (waiting name a) a.conditional_waits;
}

abbrev pub notify_first : Bytes → Condition → List Packet → Condition × List Delivery
notify_first name a [] = (a, [])
notify_first name a (p ∷ _) =
    let (c, _, out) = send_one a.communicator cond_notify name p.source in
    (record a { communicator = c }, out)

unfoldable pub notify_one : Condition → Bytes → Condition × List Delivery
unfolding touch send_one
notify_one a name = notify_first name (touch name a) (waiting name a)

-- `std::unordered_set<ProcessId>` of the sources, by `std::transform`.
unfoldable pub insert_id : List ℕ → ℕ → List ℕ
insert_id s x = if any (λ y. y == x) s then s else x ∷ s

unfoldable pub sources : List Packet → List ℕ
unfolding insert_id
sources [] = []
sources (p ∷ ps) = insert_id (sources ps) p.source

abbrev pub is_empty : {A : Type 0} → List A → Bool
is_empty [] = true
is_empty (_ ∷ _) = false

-- The test is whether the whole map is empty.
unfoldable pub notify_all : Condition → Bytes → Condition × List Delivery
unfolding touch sources send
notify_all a name =
    if is_empty a.conditional_waits
    then (a, [])
    else (let a' = touch name a in
        let (c, _, out) = send a'.communicator cond_notify name (sources (waiting name a)) in
        (record a' { communicator = c }, out))

-- `wait` up to the wait on the local condition variable: others are told.
unfoldable pub begin_wait : Condition → Bytes → Condition × List Delivery
unfolding send_others
begin_wait a name =
    let (c, _, out) = send_others a.communicator cond_wait name in
    (record a { communicator = c }, out)

unfoldable pub takes_notify : Bytes → Packet → Bool
takes_notify name p = type_eq p.message_type cond_notify && bytes_eq p.message name

-- `wait` after the wait on the local condition variable.
unfoldable pub end_wait : Condition → Bytes → Condition × List Delivery
unfolding send_others
end_wait a name =
    let (c, _, out) = send_others a.communicator cond_wait_end name in
    (record a { communicator = c }, out)

unfoldable pub takes_confirmation : Bytes → Packet → Bool
takes_confirmation name p = type_eq p.message_type cond_wait_end_confirm && bytes_eq p.message name

unfoldable pub on_confirmation : List Packet → Packet → List Packet
unfolding insert
on_confirmation received p = insert received p

unfoldable pub are_confirmations_complete : Condition → List Packet → Bool
are_confirmations_complete a received =
    length received == (a.communicator.number_of_processes + 2 ^ 64 - 1) % 2 ^ 64
