-- ===== src/Exclusion/Defs.antt =====
-- What is counted of the packets of one mutex, and the invariant of the system.
use distributed_monitor.Base.{
  ℕ, ◌+◌, ◌≤◌, ◌<◌, ◌≡◌, ◌≢◌, ◌⊎◌, Bool, true, false, List, [], Option, none, some, ◌==◌,
  if◌then◌else◌, count, All, Bytes, bytes_eq,
}
use distributed_monitor.Base.Assoc
use distributed_monitor.Communication.Packet.{
  MessageType, mutex_request, mutex_agreement, type_eq, Packet,
}
use distributed_monitor.Communication.Clock.{other_ids}
use distributed_monitor.Exclusion.System.{Main, running, acquiring, releasing, Process, System}

-- 1 for a packet of the given type about `m` from `i`, otherwise 0.
abbrev pub weigh : MessageType → Bytes → ℕ → Packet → ℕ
weigh t m i p =
    if type_eq p.message_type t
    then (if bytes_eq p.message m then (if p.source == i then 1 else 0) else 0)
    else 0

-- 1 for a request of `i` for `m` whose stamp is not `t`.
abbrev pub weigh_stale : Bytes → ℕ → ℕ → Packet → ℕ
weigh_stale m i t p = if p.lamport_time == t then 0 else weigh mutex_request m i p

abbrev pub in_hand : (Packet → ℕ) → Option Packet → ℕ
in_hand w none = 0
in_hand w (some p) = w p

-- The requests for `m` that a process has put off and not answered.
abbrev pub left_over : Bytes → List Packet → Main → List Packet
left_over m stored running = stored
left_over m stored (acquiring name agreements) = stored
left_over m stored (releasing name rest) = if bytes_eq name m then rest else stored

abbrev pub put_off : Bytes → Process → List Packet
put_off m p = left_over m (Assoc.at [] m p.exclusion.received_requests) p.main

-- The agreements on `m` that a process has collected.
abbrev pub collected : Bytes → Main → List Packet
collected m running = []
collected m (acquiring name agreements) = if bytes_eq name m then agreements else []
collected m (releasing name rest) = []

abbrev pub wants : Bytes → Main → ℕ
wants m running = 0
wants m (acquiring name agreements) = if bytes_eq name m then 1 else 0
wants m (releasing name rest) = 0

abbrev pub is_leaving : Bytes → Main → Bool
is_leaving m running = false
is_leaving m (acquiring name agreements) = false
is_leaving m (releasing name rest) = bytes_eq name m

abbrev pub clock : Process → ℕ
clock p = p.exclusion.communicator.current_lamport_time

abbrev pub queued : Bytes → Process → Option ℕ
queued m p = Assoc.find m p.exclusion.queued_mutexes

-- The requests of `i` that `j` has not answered: on the way, in the hand of `j`, and put off.
abbrev pub open_requests : (Packet → ℕ) → Bytes → Process → List Packet → ℕ
open_requests w m q there = count w there + in_hand w q.hand + count w (put_off m q)

-- The agreements of `j` for `i`: on the way, in the hand of `i`, and collected.
abbrev pub agreements : (Packet → ℕ) → Bytes → Process → List Packet → ℕ
agreements w m p back = count w back + in_hand w p.hand + count w (collected m p.main)

-- The order in which requests are served.
abbrev pub Before : ℕ → ℕ → ℕ → ℕ → Type 0
Before t i u j = (t < u) ⊎ ((t ≡ u) × (i < j))

-- What the request of `i` means between `i` and `j`, with the channels `there` and `back`.
pub record Pair (m : Bytes) (i j : ℕ) (p q : Process) (there back : List Packet) : Type 0 where
  -- A process that waits has with each other one request or one agreement, and else none.
  pub tokens :
      open_requests (weigh mutex_request m i) m q there
        + agreements (weigh mutex_agreement m j) m p back
      ≡ wants m p.main
  pub stamps : (t : ℕ) → queued m p ≡ some t → open_requests (weigh_stale m i t) m q there ≡ 0
  pub seen : (t : ℕ) → queued m p ≡ some t → count (weigh mutex_request m i) there ≡ 0 → t ≤ clock q
  pub order :
      (t u : ℕ)
      → queued m p ≡ some t
      → queued m q ≡ some u
      → is_leaving m q.main ≡ false
      → open_requests (weigh mutex_request m i) m q there ≡ 0
      → Before t i u j

-- A packet that may come to process `b`, with a stamp of at most `k`.
abbrev pub IsFor : ℕ → ℕ → ℕ → Packet → Type 0
IsFor n b k p = (p.source < n) × (p.source ≢ b) × (p.lamport_time ≤ k)

-- A packet in the channel from `a` to `b`.
abbrev pub IsFrom : ℕ → ℕ → ℕ → ℕ → Packet → Type 0
IsFrom n a b k p = (p.source ≡ a) × IsFor n b k p

-- A request for `name` that process `b` may have put off.
abbrev pub IsRequest : ℕ → ℕ → Bytes → Packet → Type 0
IsRequest n b name p =
    (p.source < n)
    × (p.source ≢ b)
    × (type_eq p.message_type mutex_request ≡ true)
    × (bytes_eq p.message name ≡ true)

-- An answer of type `t` about `name` from another process than `b`.
abbrev pub IsAnswer : MessageType → ℕ → ℕ → Bytes → Packet → Type 0
IsAnswer t n b name p =
    (p.source < n)
    × (p.source ≢ b)
    × (type_eq p.message_type t ≡ true)
    × (bytes_eq p.message name ≡ true)

abbrev pub IsAgreement : ℕ → ℕ → Bytes → Packet → Type 0
IsAgreement = IsAnswer mutex_agreement

abbrev pub IsMain : ℕ → ℕ → Process → Main → Type 0
IsMain n i p running = Unit
IsMain n i p (acquiring name ag) = All (IsAgreement n i name) ag × (queued name p ≢ none)
IsMain n i p (releasing name rest) = All (IsRequest n i name) rest × (queued name p ≢ none)

abbrev pub IsHand : ℕ → ℕ → ℕ → Option Packet → Type 0
IsHand n i k none = Unit
IsHand n i k (some p) = IsFor n i k p

-- What holds of process `i` alone after `k` steps.
pub record Local (n i k : ℕ) (p : Process) : Type 0 where
  pub rank : p.exclusion.communicator.my_process_id ≡ i
  pub size : p.exclusion.communicator.number_of_processes ≡ n
  pub others : p.exclusion.communicator.other_processes ≡ other_ids n 0 i
  pub early : clock p ≤ k
  pub asked : (m : Bytes) (t : ℕ) → queued m p ≡ some t → t ≤ clock p
  pub main_ok : IsMain n i p p.main
  pub hand_ok : IsHand n i k p.hand
  pub stored : (m : Bytes) → All (IsRequest n i m) (Assoc.at [] m p.exclusion.received_requests)

pub record Inv (n k : ℕ) (m : Bytes) (s : System) : Type 0 where
  pub local : (i : ℕ) → i < n → Local n i k (s.process i)
  pub carried : (a b : ℕ) → a < n → b < n → All (IsFrom n a b k) (s.channel a b)
  pub pairs :
      (i j : ℕ)
      → i < n
      → j < n
      → i ≢ j
      → Pair m i j (s.process i) (s.process j) (s.channel i j) (s.channel j i)
