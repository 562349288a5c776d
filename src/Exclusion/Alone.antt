-- ===== src/Exclusion/Alone.antt =====
-- Each step keeps what holds of one process alone, and sends only well-formed packets.
use distributed_monitor.Base.{
  ℕ, zero, suc, ◌+◌, ◌%◌, ◌^◌, ◌≤◌, ◌<◌, ◌≡◌, ◌≢◌, subst, sym, ◌∙◌, max, inl, inr, true, List, [],
  ◌∷◌, Option, none, some, arith, ◌==◌, All, Bool-cases, Bytes, bytes_eq_iff, bytes_eq_refl,
  &&-true,
}
use distributed_monitor.Base.Assoc
use distributed_monitor.Base.Assoc.{Assoc}
use distributed_monitor.Communication.Packet.{Packet, insert}
use distributed_monitor.Communication.Clock.{
  other_ids, tick, merge, Delivery, send, send_one, send_others, accept,
}
use distributed_monitor.Exclusion.Algorithm.{send_agreement, defer, queue, dequeue, takes_agreement}
use distributed_monitor.Exclusion.System.{
  Main, running, acquiring, releasing, Process, Act, acquire, acquired, release, answer, released,
  handled, other_send, taken,
}
use distributed_monitor.Exclusion.Defs.{
  IsFor, IsFrom, IsRequest, IsAgreement, IsMain, IsHand, Local, clock,
}
use distributed_monitor.Exclusion.Network.{sent_to, spread}
use distributed_monitor.Exclusion.Handler.{Outcome, skip, grant, delay, collect, on_packet-Outcome}

-- What process `i` sends: in its name, stamped with at most `k`, to another process.
abbrev pub IsSent : ℕ → ℕ → Delivery → Type 0
IsSent i k d = (d.packet.source ≡ i) × (d.packet.lamport_time ≤ k) × (d.to ≢ i)

pub sent-IsFrom :
    (n i b k : ℕ) (out : List Delivery)
    → i < n
    → All (IsSent i k) out
    → All (IsFrom n i b k) (sent_to b out)
sent-IsFrom n i b k [] lt h = tt
sent-IsFrom n i b k (d ∷ ds) lt h = elim (Bool-cases (b == d.to)) [
  | inl e ↦ rw e (ground arith, sent-IsFrom n i b k ds lt h.1)
  | inr e ↦ rw e (sent-IsFrom n i b k ds lt h.1)
]

spread-IsSent :
    (i k : ℕ) (p : Packet) (rounds id : ℕ)
    → p.source ≡ i
    → p.lamport_time ≤ k
    → All (IsSent i k) (spread p (other_ids rounds id i))
unfolding other_ids
spread-IsSent i k p zero id e h = tt
spread-IsSent i k p (suc rounds) id e h = elim (Bool-cases (id == i)) [
  | inl t ↦ rw t (spread-IsSent i k p rounds (id + 1) e h)
  | inr t ↦ rw t (ground arith, spread-IsSent i k p rounds (id + 1) e h)
]

recipients-IsSent {ℓ} :
    {P : ℕ → Type ℓ} (i k : ℕ) (p : Packet) (rs : List ℕ)
    → p.source ≡ i
    → p.lamport_time ≤ k
    → ((r : ℕ) → P r → r ≢ i)
    → All P rs
    → All (IsSent i k) (spread p rs)
recipients-IsSent i k p [] e h f all = tt
recipients-IsSent i k p (r ∷ rs) e h f all =
    ((e, h, f r all.0), recipients-IsSent i k p rs e h f all.1)

IsHand-suc : (n i k : ℕ) (h : Option Packet) → IsHand n i k h → IsHand n i (suc k) h
IsHand-suc n i k none h = tt
IsHand-suc n i k (some p) h = ground arith

insert-All {ℓ} :
    (P : Packet → Type ℓ) (s : List Packet) (p : Packet) → All P s → P p → All P (insert s p)
unfolding insert
insert-All P s p hs h = ground arith

collect-IsAgreement :
    {n i k : ℕ} (name : Bytes) (packet : Packet)
    → IsFor n i k packet
    → takes_agreement name packet ≡ true
    → IsAgreement n i name packet
unfolding takes_agreement
collect-IsAgreement name packet h t = let both = &&-true _ _ t in (h.0, h.1, both.0, both.1)

module _ {n i k : ℕ} {p : Process} (lt : i < n) (fits : suc k < 2 ^ 64) (l : Local n i k p) where
  open l use {rank, size, others, early, asked, main_ok, hand_ok, stored}

  asked-assign :
      (name m : Bytes) (t u : ℕ)
      → Assoc.find m (Assoc.assign name u p.exclusion.queued_mutexes) ≡ some t
      → clock p ≤ u
      → t ≤ u
  asked-assign name m t u h le =
      ground (arith, Assoc.find-assign name m u p.exclusion.queued_mutexes, asked m t)

  acquire-Local :
      (name : Bytes)
      → Local n i
          (suc k)
          (record p { exclusion = (queue p.exclusion name).0; main = acquiring name [] })
  unfolding queue send_others send tick
  acquire-Local name = record {
    rank = rank;
    size = size;
    others = others;
    early = omega arith;
    asked = λ m t h. asked-assign name m t ((clock p + 1) % 2 ^ 64) h (omega arith);
    main_ok = (
      tt,
      ground (
        arith,
        Assoc.find-assign name name ((clock p + 1) % 2 ^ 64) p.exclusion.queued_mutexes,
        bytes_eq_refl name,
      ),
    );
    hand_ok = IsHand-suc n i k p.hand hand_ok;
    stored = stored;
  }

  queue-IsSent : (name : Bytes) → All (IsSent i (suc k)) (queue p.exclusion name).1
  unfolding queue send_others send tick
  queue-IsSent name = rw others (spread-IsSent i (suc k) _ n 0 rank (omega arith))

  at-assign :
      (name m : Bytes) (v : List Packet)
      → All (IsRequest n i name) v
      → All (IsRequest n i m) (Assoc.at [] m (Assoc.assign name v p.exclusion.received_requests))
  unfolding Assoc.at
  at-assign name m v h = ground (
    arith,
    bytes_eq_iff name m,
    Assoc.find-assign name m v p.exclusion.received_requests,
    stored m,
  )

  -- The steps that leave the maps alone: another clock, main thread and hand.
  move-Local :
      (t : ℕ) (main : Main) (hand : Option Packet)
      → clock p ≤ t
      → t ≤ suc k
      → IsMain n i p main
      → IsHand n i (suc k) hand
      → Local n i (suc k) (record {
        exclusion = record p.exclusion {
          communicator = record p.exclusion.communicator { current_lamport_time = t };
        };
        main = main;
        hand = hand;
      })
  move-Local t main hand lo hi mo ho = record {
    rank = rank;
    size = size;
    others = others;
    early = hi;
    asked = λ m u h. omega (arith, asked m u h);
    main_ok = IsMain-same main mo;
    hand_ok = ho;
    stored = stored;
  }
    where
      IsMain-same :
          (main : Main)
          → IsMain n i p main
          → IsMain n i
              (record p {
                exclusion = record p.exclusion {
                  communicator = record p.exclusion.communicator { current_lamport_time = t };
                };
              })
              main
      IsMain-same running h = tt
      IsMain-same (acquiring name ag) h = h
      IsMain-same (releasing name rest) h = h

  dequeue-Local :
      (name : Bytes)
      → Local n i (suc k) (record p { exclusion = dequeue p.exclusion name; main = running })
  unfolding dequeue
  dequeue-Local name = record {
    rank = rank;
    size = size;
    others = others;
    early = omega arith;
    asked = λ m t h. ground (arith, Assoc.find-erase name m p.exclusion.queued_mutexes, asked m t);
    main_ok = tt;
    hand_ok = IsHand-suc n i k p.hand hand_ok;
    stored = λ m. at-assign name m [] tt;
  }

  defer-Local :
      (packet : Packet)
      → IsRequest n i packet.message packet
      → Local n i (suc k) (record p { exclusion = defer p.exclusion packet; hand = none })
  unfolding defer
  defer-Local packet h = record {
    rank = rank;
    size = size;
    others = others;
    early = omega arith;
    asked = asked;
    main_ok = IsMain-same p.main main_ok;
    hand_ok = tt;
    stored = λ m.
        at-assign packet.message m _
          (insert-All (IsRequest n i packet.message) _ packet (stored _) h);
  }
    where
      IsMain-same :
          (main : Main)
          → IsMain n i p main
          → IsMain n i (record p { exclusion = defer p.exclusion packet; hand = none }) main
      IsMain-same running h = tt
      IsMain-same (acquiring name ag) h = h
      IsMain-same (releasing name rest) h = h

  IsMain-at : {main : Main} → p.main ≡ main → IsMain n i p main
  IsMain-at e = subst (IsMain n i p) e main_ok

  hand_later : IsHand n i (suc k) p.hand
  hand_later = IsHand-suc n i k p.hand hand_ok

  Outcome-Local :
      {packet : Packet} {p' : Process} {out : List Delivery}
      → p.hand ≡ some packet
      → Outcome p packet p' out
      → Local n i (suc k) p' × All (IsSent i (suc k)) out
  unfolding send_agreement send_one send tick
  Outcome-Local e (skip h) =
      (move-Local (clock p) p.main none (omega arith) (omega arith) main_ok tt, tt)
  Outcome-Local {packet} e (grant t h) =
      let held : IsFor n i k packet = subst (IsHand n i k) e hand_ok in
      (
        move-Local ((clock p + 1) % 2 ^ 64) p.main none (omega arith) (omega arith) main_ok tt,
        ((rank, omega arith, held.1), tt),
      )
  Outcome-Local {packet} e (delay t h) =
      let held : IsFor n i k packet = subst (IsHand n i k) e hand_ok in
      (defer-Local packet (held.0, held.1, t, bytes_eq_refl packet.message), tt)
  Outcome-Local {packet} e (collect {name} {agreements} a t) =
      let held : IsFor n i k packet = subst (IsHand n i k) e hand_ok in
      let main : IsMain n i p (acquiring name agreements) = IsMain-at a in
      let ours = collect-IsAgreement name packet held t in
      (
        move-Local (clock p) (acquiring name (insert agreements packet)) none (omega arith)
            (omega arith) (insert-All (IsAgreement n i name) agreements packet main.0 ours, main.1)
            tt,
        tt,
      )

  -- A step of the process keeps what holds of it alone.
  pub Act-Local :
      {p' : Process} {out : List Delivery}
      → Act n p p' out
      → Local n i (suc k) p' × All (IsSent i (suc k)) out
  unfolding send_agreement send_one send tick
  Act-Local (acquire name r q) = (acquire-Local name, queue-IsSent name)
  Act-Local (acquired e c) =
      (move-Local (clock p) running p.hand (omega arith) (omega arith) tt hand_later, tt)
  Act-Local (release name r q) = (
    move-Local (clock p) (releasing name _) p.hand (omega arith) (omega arith)
        (stored name, λ z. cc) hand_later,
    tt,
  )
  Act-Local (answer {name} {request} {rest} e) =
      let main : IsMain n i p (releasing name (request ∷ rest)) = IsMain-at e in
      (
        move-Local ((clock p + 1) % 2 ^ 64) (releasing name rest) p.hand (omega arith) (omega arith)
            (main.0.1, main.1) hand_later,
        ((rank, omega arith, main.0.0.1), tt),
      )
  Act-Local (released {name} e) = (dequeue-Local name, tt)
  Act-Local (handled {packet} f e h) = Outcome-Local e (on_packet-Outcome p packet h)
  Act-Local (other_send t message recipient r ne a b) = (
    move-Local ((clock p + 1) % 2 ^ 64) p.main p.hand (omega arith) (omega arith) main_ok
        hand_later,
    recipients-IsSent i (suc k) (send p.exclusion.communicator t message recipient).1 recipient rank
        (omega arith) (λ x h z. h.1 (z ∙ sym rank)) r,
  )

  pub taken-Local : (packet : Packet) → IsFor n i k packet → Local n i (suc k) (taken p packet)
  unfolding accept merge
  taken-Local packet h =
      move-Local ((max packet.lamport_time (clock p) + 1) % 2 ^ 64) p.main (some packet)
        (omega arith) (omega arith) main_ok (h.0, h.1, omega arith)

  pub Local-suc : Local n i (suc k) p
  Local-suc = move-Local (clock p) p.main p.hand (omega arith) (omega arith) main_ok hand_later
