-- ===== src/Condition/Members.antt =====
-- What holds of one process that uses a condition variable, and what its packets weigh.
use distributed_monitor.Base.{
  ℕ, ◌+◌, ◌≤◌, ◌≡◌, refl, ◌∙◌, true, List, [], ◌∷◌, arith, ◌==◌, count, All, Bytes, bytes_eq_refl,
  Bool-cases, inl, inr,
}
use distributed_monitor.Base.Assoc
use distributed_monitor.Base.Assoc.{Assoc}
use distributed_monitor.Base.Names
use distributed_monitor.Communication.Packet.{
  MessageType, Packet, cond_wait, cond_wait_end, cond_wait_end_confirm, cond_notify, insert_ordered,
}
use distributed_monitor.Communication.Clock.{other_ids, init}
use distributed_monitor.Communication.Clock.Laws.{one_at, count-other_ids}
use distributed_monitor.Exclusion.Defs.{IsAnswer}
use distributed_monitor.Exclusion.Network.{sent_to, spread}
use distributed_monitor.Condition.Algorithm.{
  Condition, waiting, touch, on_wait, on_wait_end, insert_id, sources,
}
use distributed_monitor.Condition.System.{Member, first_source}
use distributed_monitor.Condition.Protocol.{from, aims, received}

-- The four types of packet about a condition variable.
pub data Kind : Type 0 where
  call end answer note : Kind

abbrev pub type_of : Kind → MessageType
type_of call = cond_wait
type_of end = cond_wait_end
type_of answer = cond_wait_end_confirm
type_of note = cond_notify

-- A packet about `name` from process `i`.
abbrev pub IsOurs : Bytes → ℕ → Packet → Type 0
IsOurs name i p = (p.source ≡ i) × (p.message ≡ name) × (k : Kind) × (p.message_type ≡ type_of k)

pub record Local (name : Bytes) (n i : ℕ) (m : Member) : Type 0 where
  pub rank : m.condition.communicator.my_process_id ≡ i
  pub size : m.condition.communicator.number_of_processes ≡ n
  pub others : m.condition.communicator.other_processes ≡ other_ids n 0 i
  pub registered : Names.contains m.condition.registered_cvs name ≡ true
  pub strangers : count (from i) (waiting name m.condition) ≡ 0
  pub not_self : aims i m.stage ≡ 0
  pub collected : All (IsAnswer cond_wait_end_confirm n i name) (received m.stage)

-- Where a packet goes that is sent to each of some processes.
pub sent_to-spread_zero :
    (b : ℕ) (p : Packet) (rs : List ℕ) → count (one_at b) rs ≡ 0 → sent_to b (spread p rs) ≡ []
sent_to-spread_zero b p [] e = refl
sent_to-spread_zero b p (r ∷ rs) e =
    ground (arith, sent_to-spread_zero b p rs (omega (arith, e)), e)

pub All-sent_to-spread :
    (P : Packet → Type 0) (b : ℕ) (p : Packet) (rs : List ℕ) → P p → All P (sent_to b (spread p rs))
All-sent_to-spread P b p [] h = tt
All-sent_to-spread P b p (r ∷ rs) h = elim (Bool-cases (b == r)) [
  | inl e ↦ rw e (h, All-sent_to-spread P b p rs h)
  | inr e ↦ rw e (All-sent_to-spread P b p rs h)
]

pub sent_to_self : (p : Packet) (n i : ℕ) → sent_to i (spread p (other_ids n 0 i)) ≡ []
unfolding init
sent_to_self p n i =
    sent_to-spread_zero i p (other_ids n 0 i) (count-other_ids n i i ∙ ground arith)

-- What the operations do to those that wait.
pub waiting-touch : (name : Bytes) (a : Condition) → waiting name (touch name a) ≡ waiting name a
unfolding touch Assoc.at
waiting-touch name a =
    ground
      (arith, Assoc.find-assign name name (waiting name a) a.conditional_waits, bytes_eq_refl name)

insert_ordered-count :
    (w : Packet → ℕ) (s : List Packet) (p : Packet) → count w (insert_ordered s p) ≤ w p + count w s
unfolding insert_ordered
insert_ordered-count w [] p = omega arith
insert_ordered-count w (q ∷ s) p = ground (arith, insert_ordered-count w s p)

pub waiting-on_wait :
    (w : Packet → ℕ) (a : Condition) (p : Packet)
    → count w (waiting p.message (on_wait a p)) ≤ w p + count w (waiting p.message a)
unfolding on_wait Assoc.at
waiting-on_wait w a p = ground (
  arith,
  Assoc.find-assign p.message p.message (insert_ordered (waiting p.message a) p)
      a.conditional_waits,
  bytes_eq_refl p.message,
  insert_ordered-count w (waiting p.message a) p,
)

pub waiting-on_wait_end : (a : Condition) (p : Packet) → waiting p.message (on_wait_end a p).0 ≡ []
unfolding on_wait_end Assoc.at
waiting-on_wait_end a p =
    ground
      (arith, Assoc.find-erase p.message p.message a.conditional_waits, bytes_eq_refl p.message)

-- Who is notified waits.
insert_id-one_at :
    (i x : ℕ) (s : List ℕ) → count (one_at i) (insert_id s x) ≤ one_at i x + count (one_at i) s
unfolding insert_id
insert_id-one_at i x s = ground arith

pub sources-from : (i : ℕ) (s : List Packet) → count (one_at i) (sources s) ≤ count (from i) s
unfolding sources
sources-from i [] = omega arith
sources-from i (p ∷ s) = omega (arith, insert_id-one_at i p.source (sources s), sources-from i s)

pub first_source-from :
    (i : ℕ) (s : List Packet) → count (one_at i) (first_source s) ≤ count (from i) s
first_source-from i [] = omega arith
first_source-from i (p ∷ s) = omega arith
