-- ===== src/Exclusion/Handled.antt =====
-- The handler of the receiving thread never throws in a reachable state.
use distributed_monitor.Base.{
  ℕ, ◌^◌, ◌<◌, ◌≡◌, ◌≢◌, refl, sym, ◌∙◌, subst, inl, inr, true, false, List, [], none, some, arith,
  ◌==◌, Bool-cases, Option-cases, Bytes, bytes_eq, bytes_eq_iff, bytes_eq_refl,
}
use distributed_monitor.Base.Names
use distributed_monitor.Communication.Packet.{
  mutex_request, mutex_agreement, Packet, type_eq, insert,
}
use distributed_monitor.Communication.Clock.{Delivery}
use distributed_monitor.Exclusion.Algorithm.{
  takes_request, process_request, takes_agreement, add_agreement, queue, send_agreement, defer,
  dequeue,
}
use distributed_monitor.Exclusion.System.{
  Main, running, acquiring, releasing, Process, System, Act, acquire, acquired, release, answer,
  released, handled, other_send, Step, act, receive, Reach, start, later, on_request, on_agreement,
  on_main, is_other, on_packet,
}
use distributed_monitor.Exclusion.Defs.{wants, queued, IsHand, IsFor, IsMain, Inv}
use distributed_monitor.Exclusion.Handler.{Outcome, skip, grant, delay, collect, on_packet-Outcome}
use distributed_monitor.Exclusion.Invariant.{Reach-Inv}

abbrev names_of : Process → List Bytes
names_of p = p.exclusion.registered_mutexes

Outcome-names :
    {p p' : Process} {packet : Packet} {out : List Delivery}
    → Outcome p packet p' out
    → names_of p' ≡ names_of p
unfolding send_agreement defer
Outcome-names (skip h) = refl
Outcome-names (grant t h) = refl
Outcome-names (delay t h) = refl
Outcome-names (collect e t) = refl

Act-names :
    {n : ℕ} {p p' : Process} {out : List Delivery} → Act n p p' out → names_of p' ≡ names_of p
unfolding queue send_agreement dequeue
Act-names (acquire name r e) = refl
Act-names (acquired e c) = refl
Act-names (release name r e) = refl
Act-names (answer e) = refl
Act-names (released e) = refl
Act-names {p} (handled {packet} f e h) = Outcome-names (on_packet-Outcome p packet h)
Act-names (other_send t message recipient lt ne a b) = refl

Step-names :
    {n : ℕ} {names : List Bytes} {s t : System}
    → Step n s t
    → ((i : ℕ) → names_of (s.process i) ≡ names)
    → (i : ℕ) → names_of (t.process i) ≡ names
Step-names {s} (act i {p} li a) h x = elim (Bool-cases (i == x)) [
  | inl e ↦ rw e (Act-names a ∙ h i)
  | inr e ↦ rw e (h x)
]
Step-names {s} (receive i j li lj free first) h x = elim (Bool-cases (i == x)) [
  | inl e ↦ rw e (h i)
  | inr e ↦ rw e (h x)
]

Reach-names :
    {names : List Bytes} {n k : ℕ} {s : System}
    → Reach names n k s
    → (i : ℕ) → names_of (s.process i) ≡ names
Reach-names start i = refl
Reach-names (later r st) i = Step-names st (Reach-names r) i

-- A process that waits for the mutex of an agreement takes it.
on_main-total :
    (p : Process) (packet : Packet) (main : Main)
    → type_eq packet.message_type mutex_agreement ≡ true
    → wants packet.message main ≡ 1
    → (queued packet.message p ≢ none)
    → (r : Process × List Delivery) × (on_main p packet main ≡ some r)
unfolding takes_agreement add_agreement
on_main-total p packet running t w q = absurd (omega arith)
on_main-total p packet (releasing name rest) t w q = absurd (omega arith)
on_main-total p packet (acquiring name ag) t w q = elim (Option-cases (queued packet.message p)) [
  | inl e ↦ absurd (q e)
  | inr (u, e) ↦ (
    (record p { main = acquiring name (insert ag packet); hand = none }, []),
    rw (t, same, on_agreement, e),
  )
]
  where
    same : bytes_eq packet.message name ≡ true
    same = ground (arith, bytes_eq_iff name packet.message, bytes_eq_iff packet.message name)

wanted-queued :
    (n i : ℕ) (p : Process) (main : Main) (m : Bytes)
    → IsMain n i p main
    → wants m main ≡ 1
    → queued m p ≢ none
wanted-queued n i p running m h w = absurd (omega arith)
wanted-queued n i p (releasing name rest) m h w = absurd (omega arith)
wanted-queued n i p (acquiring name ag) m h w = ground (arith, bytes_eq_iff name m, h.1)

-- The type of a packet that the subscription of the constructor passes over.
agreement-type :
    (packet : Packet)
    → is_other packet ≡ false
    → type_eq packet.message_type mutex_request ≡ false
    → type_eq packet.message_type mutex_agreement ≡ true
agreement-type packet o t = ground arith

-- No exception: in every state that `n` processes, fewer than 2 ^ 31, reach in fewer than 2 ^ 64
-- steps, the handler accepts the packet that the receiving thread of a process holds, if the
-- processes have registered the mutex that the packet names.
pub on_packet-total :
    {names : List Bytes} {n k : ℕ} {s : System}
    → n < 2 ^ 31
    → k < 2 ^ 64
    → Reach names n k s
    → (i : ℕ) {packet : Packet} → i < n
    → (s.process i).hand ≡ some packet
    → Names.contains names packet.message ≡ true
    → (r : Process × List Delivery) × (on_packet (s.process i) packet ≡ some r)
unfolding on_packet takes_request process_request
on_packet-total {names} {n} {k} {s} small fits r i {packet} li e known =
    elim (Bool-cases (is_other packet)) [
      | inl o ↦ ((record (s.process i) { hand = none }, []), rw o)
      | inr o ↦ elim (Bool-cases (type_eq packet.message_type mutex_request)) [
        | inl t ↦
            let a = process_request (s.process i).exclusion packet in
            ((record (s.process i) { exclusion = a.0; hand = none }, a.1), accepted o t)
        | inr t ↦
            let main =
              on_main-total (s.process i) packet (s.process i).main (agreement-type packet o t)
                (wanted o t)
                (wanted-queued n i (s.process i) (s.process i).main packet.message
                  (inv.local i li).main_ok (wanted o t)) in
            (main.0, rw (o, t) main.1)
      ]
    ]
  where
    inv : Inv n k packet.message s
    inv = Reach-Inv packet.message small fits r

    held : IsFor n i k packet
    held = subst (IsHand n i k) e (inv.local i li).hand_ok

    accepted :
        is_other packet ≡ false
        → type_eq packet.message_type mutex_request ≡ true
        → on_packet (s.process i) packet ≡ on_request (s.process i) packet
    accepted o t = ground (arith, Reach-names r i)

    wanted :
        is_other packet ≡ false
        → type_eq packet.message_type mutex_request ≡ false
        → wants packet.message (s.process i).main ≡ 1
    wanted o t = ground (
      arith,
      agreement-type packet o t,
      bytes_eq_refl packet.message,
      (inv.pairs i packet.source li held.0 (λ z. held.1 (sym z))).tokens,
    )
