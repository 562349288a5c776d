-- ===== src/Exclusion/System.antt =====
-- Any number of processes that run the exclusion algorithm, each with a main thread and a receiving
-- thread, over channels that keep the order of the packets between two processes.
-- `queuedMutexesMutex` is held from the send in `queue` to its end, through all of `releaseMutex`
-- and in both handlers. So `queue` is one step, while `releaseMutex` is one step for each agreement:
-- the receiving thread may take a packet and advance the clock in between, and handle it if it is one
-- of another component, but not if it is a request or an agreement.
use Prim.Native.Nat.{ℕ, suc, ◌<◌, ◌≤◌}
use distributed_monitor.Base.{
  All, count, ◌≡◌, ◌≢◌, Bool, true, false, not, ◌&&◌, List, [], ◌∷◌, ◌++◌, Option, none, some, ◌==◌,
  if◌then◌else◌, Bytes, bytes_eq,
}
use distributed_monitor.Base.Assoc
use distributed_monitor.Communication.Packet.{
  MessageType, mutex_request, mutex_agreement, type_eq, Packet,
}
use distributed_monitor.Communication.Clock.{Communicator, init, Delivery, send, accept}
use distributed_monitor.Exclusion.Algorithm.{
  Exclusion, takes_request, process_request, queue, takes_agreement, add_agreement,
  are_agreements_complete, send_agreement, dequeue,
}

-- Where the main thread stands: outside the algorithm, in the wait of `acquireMutex` with the
-- agreements received so far, or in the loop of `releaseMutex` with the requests not yet answered.
pub data Main : Type 0 where
  running : Main
  acquiring : Bytes → List Packet → Main
  releasing : Bytes → List Packet → Main

-- `hand` is the packet that the receiving thread has taken and not yet handled.
pub record Process : Type 0 where
  pub exclusion : Exclusion
  pub main : Main
  pub hand : Option Packet

pub record System : Type 0 where
  pub process : ℕ → Process
  pub channel : ℕ → ℕ → List Packet

abbrev pub update : (ℕ → Process) → ℕ → Process → ℕ → Process
update f i p j = if i == j then p else f j

-- The packets that process `i` sends go to the ends of its channels.
abbrev pub post : (ℕ → ℕ → List Packet) → ℕ → List Delivery → ℕ → ℕ → List Packet
post f i [] a b = f a b
post f i (d ∷ ds) a b =
    post (λ x y. if (x == i && y == d.to) then f x y ++ d.packet ∷ [] else f x y) i ds a b

-- `receive` takes the first packet of a channel.
abbrev pub take_from : (ℕ → ℕ → List Packet) → ℕ → ℕ → List Packet → ℕ → ℕ → List Packet
take_from f i j rest a b = if (a == i && b == j) then rest else f a b

-- Process `i` goes on as `p` and sends `out`.
abbrev pub change : System → ℕ → Process → List Delivery → System
change s i p out = record { process = update s.process i p; channel = post s.channel i out }

-- What the receiving thread does with a packet, and what it sends: the callback of the
-- constructor's subscription, and that of `acquireMutex` while it waits. `none` is an exception;
-- other packets belong to other components.
abbrev pub on_request : Process → Packet → Option (Process × List Delivery)
on_request p packet =
    let r = process_request p.exclusion packet in
    some (record p { exclusion = r.0; hand = none }, r.1)

abbrev pub on_agreement : Process → Bytes → List Packet → Packet → Option (Process × List Delivery)
on_agreement p name agreements packet = elim (add_agreement p.exclusion agreements packet) [
  | none ↦ none
  | some agreements' ↦ some (record p { main = acquiring name agreements'; hand = none }, [])
]

abbrev pub on_main : Process → Packet → Main → Option (Process × List Delivery)
on_main p packet running = none
on_main p packet (releasing name rest) = none
on_main p packet (acquiring name agreements) =
    if takes_agreement name packet then on_agreement p name agreements packet else none

abbrev pub is_other : Packet → Bool
is_other p =
    if type_eq p.message_type mutex_request
    then false
    else if type_eq p.message_type mutex_agreement
    then false
    else true

unfoldable pub on_packet : Process → Packet → Option (Process × List Delivery)
on_packet p packet =
    if is_other packet
    then some (record p { hand = none }, [])
    else if takes_request p.exclusion packet
    then on_request p packet
    else on_main p packet p.main

abbrev pub is_releasing : Main → Bool
is_releasing (releasing _ _) = true
is_releasing _ = false

-- The lock that `releaseMutex` holds keeps out the handlers of this algorithm, and no others.
abbrev pub locks_out : Main → Packet → Bool
locks_out main packet = is_releasing main && not (is_other packet)

abbrev pub with_communicator : Process → Communicator → Process
with_communicator p c = record p { exclusion = record p.exclusion { communicator = c } }

-- One step of one of `n` processes that is not a receive: how the process goes on, and what it
-- sends. `acquire` and `release` are calls of the program: as for a `std::mutex`, a process locks
-- only what it does not own and unlocks only what it owns.
pub data Act (n : ℕ) (p : Process) : Process → List Delivery → Type 0 where
  acquire :
      (name : Bytes)
      → p.main ≡ running
      → Assoc.find name p.exclusion.queued_mutexes ≡ none
      → Act n p
          (record p { exclusion = (queue p.exclusion name).0; main = acquiring name [] })
          (queue p.exclusion name).1
  acquired :
      {name : Bytes} {agreements : List Packet}
      → p.main ≡ acquiring name agreements
      → are_agreements_complete p.exclusion agreements ≡ true
      → Act n p (record p { main = running }) []
  release :
      (name : Bytes) {t : ℕ}
      → p.main ≡ running
      → Assoc.find name p.exclusion.queued_mutexes ≡ some t
      → Act n p
          (record p { main = releasing name (Assoc.at [] name p.exclusion.received_requests) })
          []
  answer :
      {name : Bytes} {request : Packet} {rest : List Packet}
      → p.main ≡ releasing name (request ∷ rest)
      → Act n p
          (record p {
            exclusion = (send_agreement p.exclusion request).0;
            main = releasing name rest;
          })
          (send_agreement p.exclusion request).1
  released :
      {name : Bytes}
      → p.main ≡ releasing name []
      → Act n p (record p { exclusion = dequeue p.exclusion name; main = running }) []
  handled :
      {packet : Packet} {p' : Process} {out : List Delivery}
      → locks_out p.main packet ≡ false
      → p.hand ≡ some packet
      → on_packet p packet ≡ some (p', out)
      → Act n p p' out
  -- The other components send their packets through the same communicator, each to any processes but
  -- its own, and to none of them twice.
  other_send :
      (t : MessageType) (message : Bytes) (recipients : List ℕ)
      → All (λ r. (r < n) × (r ≢ p.exclusion.communicator.my_process_id)) recipients
      → ((b : ℕ) → count (λ r. if r == b then 1 else 0) recipients ≤ 1)
      → type_eq t mutex_request ≡ false
      → type_eq t mutex_agreement ≡ false
      → Act n p
          (with_communicator p (send p.exclusion.communicator t message recipients).0)
          (send p.exclusion.communicator t message recipients).2

-- The receiving thread takes a packet.
abbrev pub taken : Process → Packet → Process
taken p packet = record (with_communicator p (accept p.exclusion.communicator packet).0) {
  hand = some packet;
}

pub data Step (n : ℕ) (s : System) : System → Type 0 where
  act :
      (i : ℕ) {p : Process} {out : List Delivery}
      → i < n
      → Act n (s.process i) p out
      → Step n s (change s i p out)
  receive :
      (i j : ℕ) {packet : Packet} {rest : List Packet}
      → i < n
      → j < n
      → (s.process i).hand ≡ none
      → s.channel j i ≡ packet ∷ rest
      → Step n s (record {
        process = update s.process i (taken (s.process i) packet);
        channel = take_from s.channel j i rest;
      })

-- A process that has registered its mutexes and not yet started to listen.
abbrev pub start_process : List Bytes → ℕ → ℕ → Process
start_process names n i = record {
  exclusion = record {
    registered_mutexes = names;
    queued_mutexes = [];
    received_requests = [];
    communicator = init i n;
  };
  main = running;
  hand = none;
}

abbrev pub start_system : List Bytes → ℕ → System
start_system names n = record { process = start_process names n; channel = λ i j. [] }

-- The states after `k` steps.
pub data Reach (names : List Bytes) (n : ℕ) : ℕ → System → Type 0 where
  start : Reach names n 0 (start_system names n)
  later : {k : ℕ} {s t : System} → Reach names n k s → Step n s t → Reach names n (suc k) t

-- The process has acquired the mutex and not begun to release it.
abbrev pub busy_with : Bytes → Main → Bool
busy_with m running = false
busy_with m (acquiring name _) = bytes_eq name m
busy_with m (releasing name _) = bytes_eq name m

pub record Owns (m : Bytes) (p : Process) : Type 0 where
  pub stamp : ℕ
  pub queued : Assoc.find m p.exclusion.queued_mutexes ≡ some stamp
  pub settled : busy_with m p.main ≡ false
