-- ===== src/Exclusion/Algorithm.antt =====
-- algorithms/RicartAgrawalaExclusionAlgorithm.h: the members of one process's object, its handler
-- of requests, and the parts of `acquireMutex` and `releaseMutex`.
-- A function that sends returns what it sends. The order in which a loop visits an unordered set is
-- the order of the list. Logging is left out.
use distributed_monitor.Base.{
  ℕ, ◌+◌, ◌-◌, ◌%◌, ◌^◌, Bool, true, ◌&&◌, ◌||◌, List, [], ◌∷◌, ◌++◌, Option, none, some, ltb, ◌==◌,
  if◌then◌else◌, length, Bytes, bytes_eq,
}
use distributed_monitor.Base.Assoc
use distributed_monitor.Base.Assoc.{Assoc}
use distributed_monitor.Base.Names
use distributed_monitor.Communication.Packet.{
  mutex_request, mutex_agreement, type_eq, Packet, insert,
}
use distributed_monitor.Communication.Clock.{Communicator, Delivery, send_one, send_others}

pub record Exclusion : Type 0 where
  pub registered_mutexes : List Bytes
  pub queued_mutexes : Assoc ℕ
  pub received_requests : Assoc (List Packet)
  pub communicator : Communicator

unfoldable pub register_mutex : Exclusion → Bytes → Exclusion
register_mutex a name = record a { registered_mutexes = Names.insert a.registered_mutexes name }

unfoldable pub unregister_mutex : Exclusion → Bytes → Exclusion
unregister_mutex a name = record a { registered_mutexes = Names.erase a.registered_mutexes name }

-- The predicate that the constructor subscribes with; its callback is `process_request`.
unfoldable pub takes_request : Exclusion → Packet → Bool
takes_request a p =
    type_eq p.message_type mutex_request && Names.contains a.registered_mutexes p.message

unfoldable pub can_send_agreement : Exclusion → Packet → Bool
can_send_agreement a request = elim (Assoc.find request.message a.queued_mutexes) [
  | none ↦ true
  | some mine ↦
      ltb request.lamport_time mine
      || (request.lamport_time == mine && ltb request.source a.communicator.my_process_id)
]

unfoldable pub send_agreement : Exclusion → Packet → Exclusion × List Delivery
unfolding send_one
send_agreement a request =
    let (c, _, out) = send_one a.communicator mutex_agreement request.message request.source in
    (record a { communicator = c }, out)

-- `receivedRequests[name].insert(request)`
unfoldable pub defer : Exclusion → Packet → Exclusion
unfolding Assoc.at Assoc.assign insert
defer a request = record a {
  received_requests =
      Assoc.assign request.message
        (insert (Assoc.at [] request.message a.received_requests) request) a.received_requests;
}

unfoldable pub process_request : Exclusion → Packet → Exclusion × List Delivery
unfolding can_send_agreement send_agreement defer
process_request a request =
    if can_send_agreement a request then send_agreement a request else (defer a request, [])

-- `queue`, called by `acquireMutex`
unfoldable pub queue : Exclusion → Bytes → Exclusion × List Delivery
unfolding send_others Assoc.assign
queue a name =
    let (c, p, out) = send_others a.communicator mutex_request name in
    (
      record a {
        communicator = c;
        queued_mutexes = Assoc.assign name p.lamport_time a.queued_mutexes;
      },
      out,
    )

-- The predicate that `acquireMutex` subscribes with.
unfoldable pub takes_agreement : Bytes → Packet → Bool
takes_agreement name p = type_eq p.message_type mutex_agreement && bytes_eq p.message name

-- `none` is the exception.
unfoldable pub add_agreement : Exclusion → List Packet → Packet → Option (List Packet)
unfolding Assoc.find insert
add_agreement a agreements p = elim (Assoc.find p.message a.queued_mutexes) [
  | none ↦ none
  | some _ ↦ some (insert agreements p)
]

-- `receivedAgreements.size() == static_cast<std::size_t>(numberOfProcesses) - 1`
unfoldable pub are_agreements_complete : Exclusion → List Packet → Bool
are_agreements_complete a agreements =
    length agreements == (a.communicator.number_of_processes + 2 ^ 64 - 1) % 2 ^ 64

-- The loop of `releaseMutex`.
unfoldable pub send_agreements : Exclusion → List Packet → Exclusion × List Delivery
unfolding send_agreement
send_agreements a [] = (a, [])
send_agreements a (request ∷ rest) =
    let (a', out) = send_agreement a request in
    let (a'', more) = send_agreements a' rest in (a'', out ++ more)

-- The statements after the loop.
unfoldable pub dequeue : Exclusion → Bytes → Exclusion
unfolding Assoc.assign Assoc.erase
dequeue a name = record a {
  received_requests = Assoc.assign name [] a.received_requests;
  queued_mutexes = Assoc.erase name a.queued_mutexes;
}

unfoldable pub release_mutex : Exclusion → Bytes → Exclusion × List Delivery
unfolding send_agreements dequeue Assoc.at
release_mutex a name =
    let (a', out) = send_agreements a (Assoc.at [] name a.received_requests) in
    (dequeue a' name, out)
