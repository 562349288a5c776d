-- ===== src/Exclusion/Delayed.antt =====
-- A request that a process has put off is put off for its own request, which comes first.
use distributed_monitor.Base.{
  ℕ, ◌+◌, ◌%◌, ◌^◌, ◌≡◌, sym, subst, inl, inr, Bool, true, false, not, ◌||◌, ◌&&◌, List, [], ◌∷◌,
  Option, none, some, arith, ltb, ◌==◌, if◌then◌else◌, All, Bool-cases, Bytes, bytes_eq,
  bytes_eq_iff,
}
use distributed_monitor.Base.Assoc
use distributed_monitor.Base.Assoc.{Assoc}
use distributed_monitor.Communication.Packet.{Packet, insert}
use distributed_monitor.Communication.Clock.{
  tick, send, send_one, send_others, merge, accept, Delivery,
}
use distributed_monitor.Exclusion.Algorithm.{
  can_send_agreement, send_agreement, defer, queue, dequeue,
}
use distributed_monitor.Exclusion.System.{
  Main, running, acquiring, Process, System, Act, acquire, acquired, release, answer, released,
  handled, other_send, Step, act, receive, Reach, start, later,
}
use distributed_monitor.Exclusion.Defs.{queued}
use distributed_monitor.Exclusion.Handler.{Outcome, skip, grant, delay, collect, on_packet-Outcome}

-- Whether process `j`, with this request of its own, comes before the request `r`.
abbrev pub comes_first : Option ℕ → ℕ → Packet → Bool
comes_first none j r = false
comes_first (some u) j r = not (ltb r.lamport_time u || (r.lamport_time == u && ltb r.source j))

abbrev pub stored_at : Bytes → Process → List Packet
stored_at m p = Assoc.at [] m p.exclusion.received_requests

abbrev pub rank_of : Process → ℕ
rank_of p = p.exclusion.communicator.my_process_id

abbrev pub IsDelayed : Process → Type 0
IsDelayed p = (m : Bytes) → All (λ r. comes_first (queued m p) (rank_of p) r ≡ true) (stored_at m p)

-- Where nothing is queued, nothing is stored.
nobody :
    (Q : Packet → Type 0) (j : ℕ) (l : List Packet)
    → All (λ r. comes_first none j r ≡ true) l
    → All Q l
nobody Q j [] h = tt
nobody Q j (r ∷ l) h = cc

insert-All_first :
    (P : Packet → Type 0) (s : List Packet) (p : Packet) → All P s → P p → All P (insert s p)
unfolding insert
insert-All_first P s p hs h = ground arith

kept-comes_first :
    (p : Process) (packet : Packet)
    → can_send_agreement p.exclusion packet ≡ false
    → comes_first (queued packet.message p) (rank_of p) packet ≡ true
unfolding can_send_agreement
kept-comes_first p packet h = ground arith

at_assign :
    (name m : Bytes) (v : List Packet) (l : Assoc (List Packet))
    → Assoc.at [] m (Assoc.assign name v l) ≡ (if bytes_eq name m then v else Assoc.at [] m l)
unfolding Assoc.at
at_assign name m v l = ground (arith, Assoc.find-assign name m v l)

-- The requests that process `j`, with the stamp `o` of its own, comes before.
abbrev Firsts : Option ℕ → ℕ → List Packet → Type 0
Firsts o j = All (λ r. comes_first o j r ≡ true)

defer-IsDelayed :
    (p : Process) (packet : Packet)
    → can_send_agreement p.exclusion packet ≡ false
    → IsDelayed p
    → IsDelayed (record p { exclusion = defer p.exclusion packet; hand = none })
unfolding defer
defer-IsDelayed p packet c h m =
    subst (Firsts (queued m p) (rank_of p))
      (sym (at_assign packet.message m after p.exclusion.received_requests))
      (elim (Bool-cases (bytes_eq packet.message m)) [
        | inl e ↦ rw e (
            subst (λ z. Firsts (queued z p) (rank_of p) after) ((bytes_eq_iff packet.message m).0 e)
              (insert-All_first _ (stored_at packet.message p) packet (h packet.message)
                (kept-comes_first p packet c)))
        | inr e ↦ rw e (h m)
      ])
  where
    after : List Packet
    after = insert (stored_at packet.message p) packet

queue-IsDelayed :
    (p : Process) (name : Bytes) (main : Main)
    → Assoc.find name p.exclusion.queued_mutexes ≡ none
    → IsDelayed p
    → IsDelayed (record p { exclusion = (queue p.exclusion name).0; main = main })
unfolding queue send_others send tick
queue-IsDelayed p name main q h m = elim (Bool-cases (bytes_eq name m)) [
  | inl e ↦ nobody _ (rank_of p) (stored_at m p) (
      subst (λ o. All (λ r. comes_first o (rank_of p) r ≡ true) (stored_at m p))
        (subst (λ z. queued z p ≡ none) ((bytes_eq_iff name m).0 e) q) (h m))
  | inr e ↦
      rw
        (
          Assoc.find-assign name m ((p.exclusion.communicator.current_lamport_time + 1) % 2 ^ 64)
              p.exclusion.queued_mutexes,
          e,
        )
        (h m)
]

dequeue-IsDelayed :
    (p : Process) (name : Bytes) (main : Main)
    → IsDelayed p
    → IsDelayed (record p { exclusion = dequeue p.exclusion name; main = main })
unfolding dequeue
dequeue-IsDelayed p name main h m =
    subst (Firsts (Assoc.find m (Assoc.erase name p.exclusion.queued_mutexes)) (rank_of p))
      (sym (at_assign name m [] p.exclusion.received_requests))
      (elim (Bool-cases (bytes_eq name m)) [
        | inl e ↦ rw e tt
        | inr e ↦ rw (Assoc.find-erase name m p.exclusion.queued_mutexes, e) (h m)
      ])

Outcome-IsDelayed :
    {p : Process} {packet : Packet} {p' : Process} {out : List Delivery}
    → Outcome p packet p' out
    → IsDelayed p
    → IsDelayed p'
unfolding send_agreement send_one send tick
Outcome-IsDelayed (skip e) h = h
Outcome-IsDelayed (grant t e) h = h
Outcome-IsDelayed {p} {packet} (delay t e) h = defer-IsDelayed p packet e h
Outcome-IsDelayed (collect e t) h = h

Act-IsDelayed :
    {n : ℕ} {p p' : Process} {out : List Delivery} → Act n p p' out → IsDelayed p → IsDelayed p'
unfolding send_agreement send_one send tick
Act-IsDelayed {p} (acquire name r e) h = queue-IsDelayed p name (acquiring name []) e h
Act-IsDelayed (acquired e c) h = h
Act-IsDelayed (release name r e) h = h
Act-IsDelayed (answer e) h = h
Act-IsDelayed {p} (released {name} e) h = dequeue-IsDelayed p name running h
Act-IsDelayed {p} (handled {packet} f e g) h = Outcome-IsDelayed (on_packet-Outcome p packet g) h
Act-IsDelayed (other_send t message recipient lt ne a b) h = h

Step-IsDelayed :
    {n : ℕ} {s t : System}
    → Step n s t
    → ((i : ℕ) → IsDelayed (s.process i))
    → (i : ℕ) → IsDelayed (t.process i)
unfolding accept merge
Step-IsDelayed {s} (act i {p} li a) h x = elim (Bool-cases (i == x)) [
  | inl e ↦ rw e (Act-IsDelayed a (h i))
  | inr e ↦ rw e (h x)
]
Step-IsDelayed {s} (receive i j li lj free first) h x = elim (Bool-cases (i == x)) [
  | inl e ↦ rw e (h i)
  | inr e ↦ rw e (h x)
]

-- In every reachable state each process comes before those that it has put off.
pub Reach-IsDelayed :
    {names : List Bytes} {n k : ℕ} {s : System}
    → Reach names n k s
    → (i : ℕ) → IsDelayed (s.process i)
unfolding Assoc.at Assoc.find
Reach-IsDelayed start i = λ m. tt
Reach-IsDelayed (later r st) i = Step-IsDelayed st (Reach-IsDelayed r) i
