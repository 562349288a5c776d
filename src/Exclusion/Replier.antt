-- ===== src/Exclusion/Replier.antt =====
-- A step of the process that is asked keeps what the request means between the two.
use distributed_monitor.Base.{
  ℕ, suc, ◌+◌, ◌%◌, ◌^◌, ◌≤◌, ◌<◌, ◌≡◌, ◌≢◌, ◌⊎◌, refl, subst, inl, inr, true, false, List, [], ◌∷◌,
  ◌++◌, none, some, arith, count, count-append, Bool-cases, Bytes, bytes_eq, bytes_eq_iff,
  bytes_eq-cases,
}
use native.Mathlib.Decide.{ℕ_discrete}
use distributed_monitor.Base.Assoc
use distributed_monitor.Communication.Packet.{
  Packet, mutex_request, mutex_agreement, type_eq, insert,
}
use distributed_monitor.Communication.Clock.{
  tick, merge, Delivery, send, send_one, send_others, accept,
}
use distributed_monitor.Exclusion.Algorithm.{
  can_send_agreement, send_agreement, defer, queue, dequeue, takes_agreement,
}
use distributed_monitor.Exclusion.System.{
  running, acquiring, releasing, Process, Act, acquire, acquired, release, answer, released,
  handled, other_send, taken, is_releasing, locks_out,
}
use distributed_monitor.Exclusion.Defs.{
  weigh, weigh_stale, put_off, left_over, is_leaving, open_requests, Before, Pair, IsMain, Local,
  clock, queued,
}
use distributed_monitor.Exclusion.Network.{count-sent_to-spread, sent_to, sent_to-spread}
use distributed_monitor.Exclusion.Weights.{
  count-insert, count-insert_le, left_over_stored, at-assign,
}
use distributed_monitor.Exclusion.Handler.{Outcome, skip, grant, delay, collect, on_packet-Outcome}

module _ {n i j k : ℕ} {m : Bytes} {p q : Process} {there back : List Packet}
    (fits : suc k < 2 ^ 64) (ne : i ≢ j) (lt : i < n) (l : Local n j k q)
    (pr : Pair m i j p q there back) where
  open pr use {tokens, stamps, seen, order}
  open l use {rank, size, others, early, asked, main_ok, hand_ok, stored}

  abbrev asks : Packet → ℕ
  asks = weigh mutex_request m i

  -- A step that answers as many requests as it sends agreements, and keeps the order.
  reply_from :
      (q' : Process) (there' out : List Packet)
      → open_requests asks m q' there' + count (weigh mutex_agreement m j) out
        ≡ open_requests asks m q there
      → ((t : ℕ)
          → open_requests (weigh_stale m i t) m q' there'
            ≤ open_requests (weigh_stale m i t) m q there)
      → ((t : ℕ) → queued m p ≡ some t → count asks there' ≡ 0 → t ≤ clock q')
      → ((t u : ℕ)
          → queued m p ≡ some t
          → queued m q' ≡ some u
          → is_leaving m q'.main ≡ false
          → open_requests asks m q' there' ≡ 0
          → Before t i u j)
      → Pair m i j p q' there' (back ++ out)
  reply_from q' there' out balance stale clocks ord = record {
    tokens = omega (arith, tokens, count-append (weigh mutex_agreement m j) back out);
    stamps = λ t h. omega (arith, stamps t h, stale t);
    seen = clocks;
    order = ord;
  }

  -- A step that answers nothing and does not queue for `m`.
  reply_same :
      (q' : Process) (out : List Packet)
      → clock q ≤ clock q'
      → ((u : ℕ)
          → queued m q' ≡ some u
          → is_leaving m q'.main ≡ false
          → (queued m q ≡ some u) × (is_leaving m q.main ≡ false))
      → count (weigh mutex_agreement m j) out ≡ 0
      → open_requests asks m q' there ≡ open_requests asks m q there
      → ((t : ℕ)
          → open_requests (weigh_stale m i t) m q' there
            ≤ open_requests (weigh_stale m i t) m q there)
      → Pair m i j p q' there (back ++ out)
  reply_same q' out clocks same none_sent balance stale =
      reply_from q' there out (omega arith) stale (λ t h z. omega (arith, seen t h z))
        (λ t u h g f z. order t u h (same u g f).0 (same u g f).1 (omega arith))

  queue-request : (name : Bytes) → Packet
  queue-request name = record {
    lamport_time = (clock q + 1) % 2 ^ 64;
    source = q.exclusion.communicator.my_process_id;
    message_type = mutex_request;
    message = name;
  }

  queue-sent : (name : Bytes) → sent_to i (queue q.exclusion name).1 ≡ queue-request name ∷ []
  unfolding queue send_others send tick queue-request
  queue-sent name = rw others (sent_to-spread _ n j i lt ne)

  acquire-Pair :
      (name : Bytes)
      → q.main ≡ running
      → Pair m i j p
          (record q { exclusion = (queue q.exclusion name).0; main = acquiring name [] })
          there
          (back ++ queue-request name ∷ [])
  unfolding queue send_others send tick queue-request
  acquire-Pair name r =
      reply_from _ there (queue-request name ∷ []) (ground arith) (λ t. ground arith)
        (λ t h z. omega (arith, seen t h z))
        (λ t u h g f z. ground (
          arith,
          order t u,
          seen t,
          Assoc.find-assign name m ((clock q + 1) % 2 ^ 64) q.exclusion.queued_mutexes,
        ))

  -- The agreement with a request weighs what the request weighs.
  agreement-weight :
      (request : Packet)
      → type_eq request.message_type mutex_request ≡ true
      → count (weigh mutex_agreement m j) (sent_to i (send_agreement q.exclusion request).1)
        ≡ asks request
  unfolding send_agreement send_one send tick
  agreement-weight r t = ground (arith, rank)

  answer-balance :
      {name : Bytes} {request : Packet} {rest : List Packet}
      → q.main ≡ releasing name (request ∷ rest)
      → type_eq request.message_type mutex_request ≡ true
      → bytes_eq request.message name ≡ true
      → count asks (left_over m (Assoc.at [] m q.exclusion.received_requests) (releasing name rest))
          + asks request
        ≡ count asks (put_off m q)
  answer-balance {name} {request = r} e t h = elim (bytes_eq-cases name m) [
    | inl y ↦ ground (arith, y.0)
    | inr f ↦ ground (arith, f.0, bytes_eq_iff r.message name, bytes_eq_iff r.message m, f.1)
  ]

  answer-Pair :
      {name : Bytes} {request : Packet} {rest : List Packet}
      → q.main ≡ releasing name (request ∷ rest)
      → Pair m i j p
          (record q {
            exclusion = (send_agreement q.exclusion request).0;
            main = releasing name rest;
          })
          there
          (back ++ sent_to i (send_agreement q.exclusion request).1)
  unfolding send_agreement send_one send tick
  answer-Pair {name} {request = r} {rest} e =
      let main : IsMain n j q (releasing name (r ∷ rest)) = subst (IsMain n j q) e main_ok in
      let weight = agreement-weight r main.0.0.2 in
      let balance = answer-balance e main.0.0.2 main.0.0.3 in
      reply_from _ there _ (omega (arith, weight, balance)) (λ t. ground arith)
        (λ t h z. omega (arith, seen t h z))
        (λ t u h g f z. elim (Bool-cases (bytes_eq name m)) [
          | inl y ↦ cc
          | inr w ↦ order t u h g (rw e w) (rw e (rw w (rw w at z)))
        ])

  released-Pair :
      {name : Bytes}
      → q.main ≡ releasing name []
      → Pair m i j p
          (record q { exclusion = dequeue q.exclusion name; main = running })
          there
          (back ++ [])
  unfolding dequeue Assoc.at
  released-Pair {name} e =
      reply_same _ [] (omega arith)
        (λ u h f. ground (arith, Assoc.find-erase name m q.exclusion.queued_mutexes)) refl
        (ground (arith, Assoc.find-assign name m [] q.exclusion.received_requests))
        (λ t. ground (arith, Assoc.find-assign name m [] q.exclusion.received_requests))

  release-Pair :
      (name : Bytes)
      → q.main ≡ running
      → Pair m i j p
          (record q { main = releasing name (Assoc.at [] name q.exclusion.received_requests) })
          there
          (back ++ [])
  release-Pair name r =
      reply_same _ [] (omega arith) (λ u h f. ground arith) refl
        (ground (arith, bytes_eq_iff name m)) (λ t. ground (arith, bytes_eq_iff name m))

  -- The one case in which the order is at stake: `j` grants the request of `i`.
  grant-order :
      (packet : Packet) (t u : ℕ)
      → q.hand ≡ some packet
      → type_eq packet.message_type mutex_request ≡ true
      → can_send_agreement q.exclusion packet ≡ true
      → queued m p ≡ some t
      → queued m q ≡ some u
      → asks packet ≡ 1
      → Before t i u j
  unfolding can_send_agreement
  grant-order packet t u e y can h g one =
      ground (arith, rank, stamps t h, bytes_eq_iff packet.message m)

  grant-Pair :
      {packet : Packet}
      → q.hand ≡ some packet
      → type_eq packet.message_type mutex_request ≡ true
      → can_send_agreement q.exclusion packet ≡ true
      → Pair m i j p
          (record q { exclusion = (send_agreement q.exclusion packet).0; hand = none })
          there
          (back ++ sent_to i (send_agreement q.exclusion packet).1)
  unfolding send_agreement send_one send tick
  grant-Pair {packet} e y can =
      let weight = agreement-weight packet y in
      reply_from _ there _ (ground (arith, weight)) (λ t. ground arith)
        (λ t h z. omega (arith, seen t h z))
        (λ t u h g f z. elim (ℕ_discrete (asks packet) 1) [
          | yes one ↦ grant-order packet t u e y can h g one
          | no other ↦ order t u h g f (ground arith)
        ])

  -- A request that is put off was not put off before.
  defer-open :
      (packet : Packet)
      → q.hand ≡ some packet
      → is_releasing q.main ≡ false
      → count asks (Assoc.at [] m (defer q.exclusion packet).received_requests)
        ≡ asks packet + count asks (Assoc.at [] m q.exclusion.received_requests)
  unfolding defer
  defer-open packet e f =
      let r = q.exclusion.received_requests in
      let stored_here = left_over_stored m (Assoc.at [] m r) q.main f in
      ground (
        arith,
        tokens,
        stored_here,
        bytes_eq_iff packet.message m,
        at-assign [] packet.message m (insert (Assoc.at [] packet.message r) packet) r,
        count-insert mutex_request m i (Assoc.at [] m r) packet,
      )

  defer-stale :
      (packet : Packet) (t : ℕ)
      → count (weigh_stale m i t) (Assoc.at [] m (defer q.exclusion packet).received_requests)
        ≤ weigh_stale m i t packet
          + count (weigh_stale m i t) (Assoc.at [] m q.exclusion.received_requests)
  unfolding defer
  defer-stale packet t =
      let r = q.exclusion.received_requests in
      ground (
        arith,
        bytes_eq_iff packet.message m,
        at-assign [] packet.message m (insert (Assoc.at [] packet.message r) packet) r,
        count-insert_le (weigh_stale m i t) (Assoc.at [] m r) packet,
      )

  delay-Pair :
      {packet : Packet}
      → q.hand ≡ some packet
      → is_releasing q.main ≡ false
      → Pair m i j p
          (record q { exclusion = defer q.exclusion packet; hand = none })
          there
          (back ++ [])
  delay-Pair {packet} e f =
      let r = (defer q.exclusion packet).received_requests in
      let before = left_over_stored m (Assoc.at [] m q.exclusion.received_requests) q.main f in
      let after = left_over_stored m (Assoc.at [] m r) q.main f in
      reply_same _ [] (unfold defer in omega arith) (unfold defer in λ u h g. (h, g)) refl
        (rw (before, after, defer-open packet e f, e) (omega arith))
        (λ t. rw (before, after, e) (omega (arith, defer-stale packet t)))

  Outcome-Pair :
      {packet : Packet} {q' : Process} {out : List Delivery}
      → q.hand ≡ some packet
      → locks_out q.main packet ≡ false
      → Outcome q packet q' out
      → Pair m i j p q' there (back ++ sent_to i out)
  Outcome-Pair {packet} e f (skip h) =
      reply_same _ [] (omega arith) (λ u h f. ground arith) refl (ground arith) (λ t. ground arith)
  Outcome-Pair {packet} e f (grant t h) = grant-Pair e t h
  Outcome-Pair {packet} e f (delay t h) = delay-Pair e (ground (arith, f, t))
  Outcome-Pair {packet} e f (collect {name} {agreements = ag} a t) =
      unfold takes_agreement in
      reply_same _ [] (omega arith) (λ u h f. ground arith) refl (ground arith) (λ t. ground arith)

  -- A step of the process that is asked.
  pub Act-replier :
      {q' : Process} {out : List Delivery}
      → Act n q q' out
      → Pair m i j p q' there (back ++ sent_to i out)
  unfolding send_one send tick
  Act-replier (acquire name r e) = rw (queue-sent name) (acquire-Pair name r)
  Act-replier (acquired {name} {agreements = ag} e c) =
      reply_same _ [] (omega arith) (λ u h f. ground arith) refl (ground arith) (λ t. ground arith)
  Act-replier (release name r e) = release-Pair name r
  Act-replier (answer {name} {request = r} {rest} e) = answer-Pair e
  Act-replier (released {name} e) = released-Pair e
  Act-replier (handled {packet} f e h) = Outcome-Pair e f (on_packet-Outcome q packet h)
  Act-replier (other_send t message recipient lt' ne' a b) =
      reply_same _ (sent_to i (send q.exclusion.communicator t message recipient).2) (omega arith)
        (λ u h f. ground arith)
        (count-sent_to-spread (weigh mutex_agreement m j) i
          (send q.exclusion.communicator t message recipient).1 recipient (ground (arith, b)))
        (ground arith) (λ t. ground arith)

  -- The receive of a packet that comes from `i` or from another process.
  pub taken-replier :
      (packet : Packet) (there' : List Packet)
      → ((w : Packet → ℕ) → count w there ≡ w packet + count w there')
        ⊎ ((there' ≡ there) × (packet.source ≢ i))
      → packet.lamport_time ≤ k
      → q.hand ≡ none
      → Pair m i j p (taken q packet) there' (back ++ [])
  unfolding accept merge
  taken-replier packet there' (inl h) le e =
      reply_from _ there' [] (ground (arith, h asks)) (λ t. ground (arith, h (weigh_stale m i t)))
        (λ t g z. ground (arith, early, h asks, seen t g, stamps t g, h (weigh_stale m i t)))
        (λ t u g v f z. order t u g v f (ground (arith, h asks)))
  taken-replier packet there' (inr h) le e =
      reply_from _ there' [] (ground arith) (λ t. ground arith)
        (λ t g z. ground (arith, early, seen t g)) (λ t u g v f z. order t u g v f (ground arith))
