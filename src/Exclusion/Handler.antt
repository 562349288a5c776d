-- ===== src/Exclusion/Handler.antt =====
-- The outcomes of the receiving thread's handler, one for each branch.
use distributed_monitor.Base.{
  Bytes, ◌≡◌, refl, inl, inr, true, false, List, [], none, some, arith, Bool-cases, &&-true,
  Option-cases, some_subst,
}
use distributed_monitor.Base.Assoc
use distributed_monitor.Communication.Packet.{mutex_request, type_eq, Packet, insert}
use distributed_monitor.Communication.Clock.{Delivery}
use distributed_monitor.Exclusion.Algorithm.{
  takes_request, can_send_agreement, send_agreement, defer, process_request, takes_agreement,
  add_agreement,
}
use distributed_monitor.Exclusion.System.{
  Main, running, acquiring, releasing, Process, on_request, on_agreement, on_main, is_other,
  on_packet,
}

pub data Outcome (p : Process) (packet : Packet) : Process → List Delivery → Type 0 where
  skip : is_other packet ≡ true → Outcome p packet (record p { hand = none }) []
  grant :
      type_eq packet.message_type mutex_request ≡ true
      → can_send_agreement p.exclusion packet ≡ true
      → Outcome p packet
          (record p { exclusion = (send_agreement p.exclusion packet).0; hand = none })
          (send_agreement p.exclusion packet).1
  delay :
      type_eq packet.message_type mutex_request ≡ true
      → can_send_agreement p.exclusion packet ≡ false
      → Outcome p packet (record p { exclusion = defer p.exclusion packet; hand = none }) []
  collect :
      {name : Bytes} {agreements : List Packet}
      → p.main ≡ acquiring name agreements
      → takes_agreement name packet ≡ true
      → Outcome p packet
          (record p { main = acquiring name (insert agreements packet); hand = none })
          []

abbrev Yields : Process → Packet → Process × List Delivery → Type 0
Yields p packet r = Outcome p packet r.0 r.1

on_request-Outcome :
    (p : Process) (packet : Packet) {r : Process × List Delivery}
    → takes_request p.exclusion packet ≡ true
    → on_request p packet ≡ some r
    → Yields p packet r
unfolding takes_request process_request
on_request-Outcome p packet t h = elim (Bool-cases (can_send_agreement p.exclusion packet)) [
  | inl e ↦ some_subst (Yields p packet) _ (rw e) h (grant (&&-true _ _ t).0 e)
  | inr e ↦ some_subst (Yields p packet) _ (rw e) h (delay (&&-true _ _ t).0 e)
]

on_agreement-Outcome :
    (p : Process) (name : Bytes) (ag : List Packet) (packet : Packet) {r : Process × List Delivery}
    → p.main ≡ acquiring name ag
    → takes_agreement name packet ≡ true
    → on_agreement p name ag packet ≡ some r
    → Yields p packet r
unfolding add_agreement
on_agreement-Outcome p name ag packet e t h =
    elim (Option-cases (Assoc.find packet.message p.exclusion.queued_mutexes)) [
      | inl q ↦ ground arith
      | inr (u, q) ↦ some_subst (Yields p packet) _ (rw (q, on_agreement)) h (collect e t)
    ]

on_main-Outcome :
    (p : Process) (packet : Packet) (main : Main) {r : Process × List Delivery}
    → p.main ≡ main
    → on_main p packet main ≡ some r
    → Yields p packet r
on_main-Outcome p packet running e h = cc
on_main-Outcome p packet (releasing name rest) e h = cc
on_main-Outcome p packet (acquiring name ag) e h = elim (Bool-cases (takes_agreement name packet)) [
  | inr f ↦ ground arith
  | inl t ↦ on_agreement-Outcome p name ag packet e t (rw t at h)
]

pub on_packet-Outcome :
    (p : Process) (packet : Packet) {p' : Process} {out : List Delivery}
    → on_packet p packet ≡ some (p', out)
    → Outcome p packet p' out
unfolding on_packet
on_packet-Outcome p packet {p'} {out} h = elim (Bool-cases (is_other packet)) [
  | inl o ↦ some_subst (Yields p packet) (record p { hand = none }, []) (rw o) h (skip o)
  | inr o ↦ elim (Bool-cases (takes_request p.exclusion packet)) [
    | inl t ↦ on_request-Outcome p packet {r = (p', out)} t (rw (o, t) at h)
    | inr t ↦ on_main-Outcome p packet p.main {r = (p', out)} refl (rw (o, t) at h)
  ]
]
