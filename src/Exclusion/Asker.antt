-- ===== src/Exclusion/Asker.antt =====
-- A step of the process that asks keeps what its request means between the two.
use distributed_monitor.Base.{
  ℕ, suc, ◌+◌, ◌%◌, ◌^◌, ◌≤◌, ◌<◌, ◌≡◌, ◌≢◌, refl, subst, sym, true, List, [], ◌∷◌, ◌++◌,
  append-nil, Option, none, some, arith, count, count-append, Bytes, bytes_eq, bytes_eq_iff,
  bytes_eq_refl,
}
use distributed_monitor.Base.Assoc
use distributed_monitor.Communication.Packet.{Packet, mutex_request, mutex_agreement, insert}
use distributed_monitor.Communication.Clock.{
  tick, merge, Delivery, send, send_one, send_others, accept,
}
use distributed_monitor.Exclusion.Algorithm.{
  send_agreement, defer, queue, dequeue, takes_agreement, are_agreements_complete,
}
use distributed_monitor.Exclusion.System.{
  running, acquiring, Process, Act, acquire, acquired, release, answer, released, handled,
  other_send, taken,
}
use distributed_monitor.Exclusion.Defs.{
  weigh, weigh_stale, in_hand, put_off, collected, wants, open_requests, agreements, Pair, Local,
  clock, queued,
}
use distributed_monitor.Exclusion.Network.{
  count-sent_to-spread, sent_to, sent_to-spread, count_mono,
}
use distributed_monitor.Exclusion.Weights.{count-insert}
use distributed_monitor.Exclusion.Handler.{Outcome, skip, grant, delay, collect, on_packet-Outcome}

-- Stale requests are requests.
open_stale-le :
    (m : Bytes) (i t : ℕ) (q : Process) (there : List Packet)
    → open_requests (weigh_stale m i t) m q there
      ≤ open_requests (weigh mutex_request m i) m q there
open_stale-le m i t q there = omega (
  arith,
  count_mono (weigh_stale m i t) (weigh mutex_request m i) there stale-le,
  count_mono (weigh_stale m i t) (weigh mutex_request m i) (put_off m q) stale-le,
  in_hand-le q.hand,
)
  where
    stale-le : (p : Packet) → weigh_stale m i t p ≤ weigh mutex_request m i p
    stale-le p = ground arith

    in_hand-le :
        (h : Option Packet) → in_hand (weigh_stale m i t) h ≤ in_hand (weigh mutex_request m i) h
    in_hand-le none = omega arith
    in_hand-le (some p) = stale-le p

module _ {n i j k : ℕ} {m : Bytes} {p q : Process} {there back : List Packet}
    (fits : suc k < 2 ^ 64) (ne : i ≢ j) (lt : j < n) (l : Local n i k p)
    (pr : Pair m i j p q there back) where
  open pr use {tokens, stamps, seen, order}
  open l use {rank, size, others, early, asked, main_ok, hand_ok, stored}

  abbrev Asks : Process → List Delivery → Type 0
  Asks p' out = Pair m i j p' q (there ++ sent_to j out) back

  request : Bytes → Packet
  request name = record {
    lamport_time = (clock p + 1) % 2 ^ 64;
    source = p.exclusion.communicator.my_process_id;
    message_type = mutex_request;
    message = name;
  }

  queue-sent : (name : Bytes) → sent_to j (queue p.exclusion name).1 ≡ request name ∷ []
  unfolding queue send_others send tick request
  queue-sent name = rw others (sent_to-spread _ n i j lt (λ e. ne (sym e)))

  acquire-Pair :
      (name : Bytes)
      → p.main ≡ running
      → queued name p ≡ none
      → Pair m i j
          (record p { exclusion = (queue p.exclusion name).0; main = acquiring name [] })
          q
          (there ++ request name ∷ [])
          back
  unfolding queue send_others send tick request
  acquire-Pair name r e = record {
    tokens =
        ground (
          arith,
          tokens,
          rank,
          r,
          count-append (weigh mutex_request m i) there (request name ∷ []),
        );
    stamps = λ t h. ground (
      arith,
      tokens,
      r,
      stamps t,
      bytes_eq_refl m,
      bytes_eq_iff name m,
      open_stale-le m i t q there,
      Assoc.find-assign name m ((clock p + 1) % 2 ^ 64) p.exclusion.queued_mutexes,
      count-append (weigh_stale m i t) there (request name ∷ []),
    );
    seen = λ t h z. ground (
      arith,
      rank,
      seen t,
      Assoc.find-assign name m ((clock p + 1) % 2 ^ 64) p.exclusion.queued_mutexes,
      count-append (weigh mutex_request m i) there (request name ∷ []),
    );
    order = λ t u h g f z. ground (
      arith,
      rank,
      order t u,
      Assoc.find-assign name m ((clock p + 1) % 2 ^ 64) p.exclusion.queued_mutexes,
      count-append (weigh mutex_request m i) there (request name ∷ []),
    );
  }

  -- A step after which `m` is queued only if it was, that sends no request for `m`, and that keeps
  -- agreements and wish in balance.
  rest_same :
      (p' : Process) (out back' : List Packet)
      → ((t : ℕ) → queued m p' ≡ some t → queued m p ≡ some t)
      → count (weigh mutex_request m i) out ≡ 0
      → agreements (weigh mutex_agreement m j) m p' back' + wants m p.main
        ≡ agreements (weigh mutex_agreement m j) m p back + wants m p'.main
      → Pair m i j p' q (there ++ out) back'
  rest_same p' out back' same none_sent balance = record {
    tokens = omega (arith, tokens, count-append (weigh mutex_request m i) there out);
    stamps = λ t h.
        omega
          (arith, stamps t (same t h), count-append (weigh_stale m i t) there out, stale_none t);
    seen = λ t h z.
        seen t (same t h) (omega (arith, count-append (weigh mutex_request m i) there out));
    order = λ t u h g f z.
        order t u (same t h) g f (omega (arith, count-append (weigh mutex_request m i) there out));
  }
    where
      stale_none : (t : ℕ) → count (weigh_stale m i t) out ≡ 0
      stale_none t =
          omega (
            arith,
            count_mono (weigh_stale m i t) (weigh mutex_request m i) out (λ a. ground arith),
          )

  -- Where the process collects an agreement of `j` for `m`, it had none.
  collect-balance :
      (name : Bytes) (ag : List Packet) (packet : Packet)
      → p.hand ≡ some packet
      → p.main ≡ acquiring name ag
      → takes_agreement name packet ≡ true
      → count (weigh mutex_agreement m j) (collected m (acquiring name (insert ag packet)))
        ≡ in_hand (weigh mutex_agreement m j) p.hand
          + count (weigh mutex_agreement m j) (collected m p.main)
  unfolding takes_agreement
  collect-balance name ag packet h e t = ground (
    arith,
    tokens,
    count-insert mutex_agreement m j ag packet,
    bytes_eq_iff name m,
    bytes_eq_iff packet.message name,
    bytes_eq_iff packet.message m,
  )

  Outcome-Pair :
      {packet : Packet} {p' : Process} {out : List Delivery}
      → p.hand ≡ some packet
      → Outcome p packet p' out
      → Asks p' out
  unfolding send_agreement send_one send tick
  Outcome-Pair {packet} e (skip h) = rest_same _ [] back (λ t z. z) refl (ground arith)
  Outcome-Pair {packet} e (grant t h) =
      rest_same _ (sent_to j (send_agreement p.exclusion packet).1) back (λ u z. z) (ground arith)
        (ground arith)
  Outcome-Pair {packet} e (delay t h) =
      rest_same (record p { exclusion = defer p.exclusion packet; hand = none }) [] back
        (unfold defer in λ u z. z) refl (ground arith)
  Outcome-Pair {packet} e (collect {name} {agreements = ag} a t) =
      rest_same _ [] back (λ u z. z) refl (ground (arith, collect-balance name ag packet e a t))

  -- A step of the process that asks. When it has all agreements, it has that of `j`.
  pub Act-asker :
      {p' : Process} {out : List Delivery}
      → ((name : Bytes) (ag : List Packet)
          → p.main ≡ acquiring name ag
          → are_agreements_complete p.exclusion ag ≡ true
          → bytes_eq name m ≡ true
          → count (weigh mutex_agreement m j) ag ≡ 1)
      → Act n p p' out
      → Asks p' out
  unfolding send_agreement send_one send tick
  Act-asker full (acquire name r e) = rw (queue-sent name) (acquire-Pair name r e)
  Act-asker full (acquired {name} {agreements = ag} e c) =
      rest_same _ [] back (λ t z. z) refl (ground (arith, tokens, full name ag e c))
  Act-asker full (release name r e) = rest_same _ [] back (λ t z. z) refl (ground arith)
  Act-asker full (answer {name} {request = r} {rest} e) =
      rest_same _ (sent_to j (send_agreement p.exclusion r).1) back (λ t z. z) (ground arith)
        (ground arith)
  Act-asker full (released {name} e) =
      rest_same _ [] back
        (unfold dequeue in
          λ t z. ground (arith, Assoc.find-erase name m p.exclusion.queued_mutexes))
        refl (ground arith)
  Act-asker full (handled {packet} f e h) = Outcome-Pair e (on_packet-Outcome p packet h)
  Act-asker full (other_send t message recipient lt' ne' a b) =
      rest_same _ (sent_to j (send p.exclusion.communicator t message recipient).2) back (λ u z. z)
        (count-sent_to-spread (weigh mutex_request m i) j
          (send p.exclusion.communicator t message recipient).1 recipient (ground (arith, a)))
        (ground arith)

  -- The receive of a packet that `a` sent; from `j` it is the first of the channel.
  pub taken-asker :
      (packet : Packet) (back' : List Packet)
      → count (weigh mutex_agreement m j) back
        ≡ weigh mutex_agreement m j packet + count (weigh mutex_agreement m j) back'
      → p.hand ≡ none
      → Pair m i j (taken p packet) q there back'
  unfolding accept merge
  taken-asker packet back' h e =
      subst (λ z. Pair m i j (taken p packet) q z back') (append-nil there)
        (rest_same (taken p packet) [] back' (λ t z. z) refl (ground arith))
