-- ===== src/Examples/Programs/Bounds.antt =====
-- The example programs neither overfill nor underrun their buffers.
use distributed_monitor.Base.{
  ℕ, ◌≤◌, ◌<◌, ◌≡◌, refl, Bool, true, false, not, List, [], ◌∷◌, ◌++◌, Option, some, arith, length,
  length-append, Bytes,
}
use distributed_monitor.Examples.Ring
use distributed_monitor.Examples.Ring.{Ring}
use distributed_monitor.Examples.Ring.Refine.{IsValid, contents, put_refines, get_refines}
use distributed_monitor.Examples.Queue
use distributed_monitor.Examples.Queue.{Buffer}
use distributed_monitor.Examples.Entry.{MonitorOps}
use distributed_monitor.Examples.Programs.{
  empty_cv, full_cv, simple_produce, simple_consume, simple_two_cv_produce, simple_two_cv_consume,
  buffer_simple_produce, buffer_simple_consume, single_cv_produce, single_cv_consume,
  unlock_first_produce, unlock_first_consume, two_cv_produce, two_cv_consume, buffer_adv_produce,
  buffer_adv_consume, one_cond_produce, one_cond_consume, two_cond_produce, two_cond_consume,
  multi_produce, multi_consume,
}

not-true : (b : Bool) → not b ≡ true → b ≡ false
not-true true h = cc
not-true false h = refl

-- `r` became `r'` by one more byte.
abbrev pub Stored : ℕ → Ring → Ring → Type 0
Stored request r r' = IsValid r' × (contents r' ≡ contents r ++ request ∷ [])

-- `r` gave its first byte.
abbrev pub Fetched : ℕ → Ring → Ring → Type 0
Fetched request r r' = IsValid r' × (contents r ≡ request ∷ contents r')

-- The entry returns, in a state that is as it should be.
abbrev pub Returns : {R : Type 0} → (R → Type 0) → Option R → Type 0
Returns {R} P o = (r : R) × (o ≡ some r) × P r

abbrev pub not_full : Ring → Bool
not_full r = not (Ring.is_full r)

abbrev pub not_empty : Ring → Bool
not_empty r = not (Ring.is_empty r)

module _ {S : Type 0} (ops : MonitorOps Ring S) where
  open ops use {
    variables, assign, enter, wait, notify_one, leave, variables-assign, wait_holds,
    variables-notify_one, variables-leave,
  }

  put_after :
      {cv : Bytes} (cv' : Bytes) (request : ℕ) {s0 s1 : S}
      → wait cv not_full s0 ≡ some s1
      → IsValid (variables s1)
      → Stored request
          (variables s1)
          (variables (leave (notify_one cv' (assign (Ring.put request (variables s1)) s1))))
  put_after {cv} cv' request {s0} w v =
      rw (variables-leave, variables-notify_one, variables-assign)
        (put_refines request v (not-true _ (wait_holds cv not_full s0 w)))

  get_after :
      {cv : Bytes} (cv' : Bytes) {s0 s1 : S}
      → wait cv not_empty s0 ≡ some s1
      → IsValid (variables s1)
      → Fetched
          (Ring.get (variables s1)).0
          (variables s1)
          (variables (leave (notify_one cv' (assign (Ring.get (variables s1)).1 s1))))
  get_after {cv} cv' {s0} w v =
      rw (variables-leave, variables-notify_one, variables-assign)
        (get_refines v (not-true _ (wait_holds cv not_empty s0 w)))

  -- Each array program's `produce`, once it has entered and its wait on a valid buffer is over,
  -- returns, has added its byte to the end, and leaves the buffer valid, with at most five bytes.
  pub ring_produce-Stored :
      (cv : Bytes) (request : ℕ) (s : S) {s0 s1 s2 : S}
      → enter s ≡ some s0
      → wait cv not_full s0 ≡ some s1
      → wait full_cv not_full s0 ≡ some s2
      → IsValid (variables s1)
      → IsValid (variables s2)
      → Returns
          (λ s'. Stored request (variables s1) (variables s'))
          (simple_produce ops cv request s)
        × Returns
            (λ s'. Stored request (variables s1) (variables s'))
            (buffer_simple_produce ops cv request s)
        × Returns
            (λ s'. Stored request (variables s2) (variables s'))
            (simple_two_cv_produce ops request s)
  unfolding simple_produce buffer_simple_produce simple_two_cv_produce
  ring_produce-Stored cv request s e h k v w = (
    (_, rw (e, h), put_after cv request h v),
    (_, rw (e, h), put_after cv request h v),
    (_, rw (e, k), put_after empty_cv request k w),
  )

  -- Each array program's `consume`, once it has entered and its wait on a valid buffer is over,
  -- returns the first byte, has taken it out, and leaves the buffer valid.
  pub ring_consume-Fetched :
      (cv : Bytes) (s : S) {s0 s1 s2 : S}
      → enter s ≡ some s0
      → wait cv not_empty s0 ≡ some s1
      → wait empty_cv not_empty s0 ≡ some s2
      → IsValid (variables s1)
      → IsValid (variables s2)
      → Returns (λ r. Fetched r.0 (variables s1) (variables r.1)) (simple_consume ops cv s)
        × Returns (λ r. Fetched r.0 (variables s1) (variables r.1)) (buffer_simple_consume ops cv s)
        × Returns (λ r. Fetched r.0 (variables s2) (variables r.1)) (simple_two_cv_consume ops s)
  unfolding simple_consume buffer_simple_consume simple_two_cv_consume
  ring_consume-Fetched cv s e h k v w = (
    (_, rw (e, h), get_after cv h v),
    (_, rw (e, h), get_after cv h v),
    (_, rw (e, k), get_after full_cv k w),
  )

-- `b` became `b'` by one more element, within its size.
abbrev pub Pushed : {T : Type 0} → T → Buffer T → Buffer T → Type 0
Pushed x b b' =
    (b'.queue ≡ b.queue ++ x ∷ []) × (b'.max_size ≡ b.max_size) × (length b'.queue ≤ b'.max_size)

abbrev pub Popped : {T : Type 0} → Option T → Buffer T → Buffer T → Type 0
Popped {T} r b b' = (x : T) × (r ≡ some x) × (b.queue ≡ x ∷ b'.queue) × (b'.max_size ≡ b.max_size)

push-Pushed :
    {T : Type 0} (x : T) (b : Buffer T) → length b.queue < b.max_size → Pushed x b (Queue.push x b)
unfolding Queue.push
push-Pushed x b h = (refl, refl, omega (arith, length-append b.queue (x ∷ [])))

take_first-Popped :
    {T : Type 0} (m : ℕ) (q : List T)
    → not (Queue.is_empty_list q) ≡ true
    → Popped (Queue.take_first m q).0 (record { max_size = m; queue = q }) (Queue.take_first m q).1
take_first-Popped m [] h = cc
take_first-Popped m (x ∷ q) h = (x, refl, refl, refl)

take_front-Popped :
    {T : Type 0} (b : Buffer T)
    → not (Queue.is_empty b) ≡ true
    → Popped (Queue.take_front b).0 b (Queue.take_front b).1
unfolding Queue.is_empty Queue.take_front
take_front-Popped b h = take_first-Popped b.max_size b.queue h

-- The tests that the waits of the queue programs are for.
abbrev pub room : {T : Type 0} → Buffer T → Bool
room b = not (Queue.is_full b)

abbrev pub room_local : {T : Type 0} → Buffer T → Bool
room_local b = not (Queue.is_full_local b)

abbrev pub some_left : {T : Type 0} → Buffer T → Bool
some_left b = not (Queue.is_empty b)

below_of_room :
    {T : Type 0} (b : Buffer T)
    → length b.queue ≤ b.max_size
    → room b ≡ true
    → length b.queue < b.max_size
unfolding Queue.is_full
below_of_room b h r = ground arith

below_of_room_local :
    {T : Type 0} (b : Buffer T) → room_local b ≡ true → length b.queue < b.max_size
unfolding Queue.is_full_local
below_of_room_local b r = ground arith

module _ {T S : Type 0} (ops : MonitorOps (Buffer T) S) where
  open ops use {
    variables, assign, enter, wait, notify_one, notify_all, leave, variables-assign, wait_holds,
    variables-notify_one, variables-notify_all, variables-leave,
  }

  -- What an entry leaves in the variables, in each order in which an entry may end.
  after_notify_one :
      (cv : Bytes) (b : Buffer T) (s : S) → variables (leave (notify_one cv (assign b s))) ≡ b
  after_notify_one cv b s = rw (variables-leave, variables-notify_one) (variables-assign b s)

  notify_one_after :
      (cv : Bytes) (b : Buffer T) (s : S) → variables (notify_one cv (leave (assign b s))) ≡ b
  notify_one_after cv b s = rw (variables-notify_one, variables-leave) (variables-assign b s)

  notify_all_after :
      (cv : Bytes) (b : Buffer T) (s : S) → variables (notify_all cv (leave (assign b s))) ≡ b
  notify_all_after cv b s = rw (variables-notify_all, variables-leave) (variables-assign b s)

  distributed_push :
      {cv : Bytes} (x : T) {s0 s1 s' : S}
      → wait cv room s0 ≡ some s1
      → length (variables s1).queue ≤ (variables s1).max_size
      → variables s' ≡ Queue.push x (variables s1)
      → Pushed x (variables s1) (variables s')
  distributed_push {cv} x {s0} w h e =
      rw e (push-Pushed x _ (below_of_room _ h (wait_holds cv room s0 w)))

  local_push :
      {cv : Bytes} (x : T) {s0 s1 s' : S}
      → wait cv room_local s0 ≡ some s1
      → variables s' ≡ Queue.push x (variables s1)
      → Pushed x (variables s1) (variables s')
  local_push {cv} x {s0} w e =
      rw e (push-Pushed x _ (below_of_room_local _ (wait_holds cv room_local s0 w)))

  popped :
      {cv : Bytes} {s0 s1 s' : S}
      → wait cv some_left s0 ≡ some s1
      → variables s' ≡ (Queue.take_front (variables s1)).1
      → Popped (Queue.take_front (variables s1)).0 (variables s1) (variables s')
  popped {cv} {s0} w e = rw e (take_front-Popped _ (wait_holds cv some_left s0 w))

  -- Each distributed queue program's `produce`, once it has entered and its wait is over on a buffer
  -- within its maximal size, returns, has added its element to the end, and stays within the size.
  pub queue_produce-Pushed :
      (cv : Bytes) (x : T) (s : S) {s0 s1 s2 : S}
      → enter s ≡ some s0
      → wait cv room s0 ≡ some s1
      → wait full_cv room s0 ≡ some s2
      → length (variables s1).queue ≤ (variables s1).max_size
      → length (variables s2).queue ≤ (variables s2).max_size
      → Returns (λ s'. Pushed x (variables s1) (variables s')) (single_cv_produce ops cv x s)
        × Returns (λ s'. Pushed x (variables s1) (variables s')) (unlock_first_produce ops cv x s)
        × Returns (λ s'. Pushed x (variables s2) (variables s')) (two_cv_produce ops x s)
        × Returns (λ s'. Pushed x (variables s2) (variables s')) (buffer_adv_produce ops x s)
  unfolding single_cv_produce unlock_first_produce two_cv_produce buffer_adv_produce
  queue_produce-Pushed cv x s {s1} {s2} e h k lo lo' = (
    (_, rw (e, h), distributed_push x h lo (after_notify_one cv (Queue.push x (variables s1)) s1)),
    (_, rw (e, h), distributed_push x h lo (notify_one_after cv (Queue.push x (variables s1)) s1)),
    (
      _,
      rw (e, k),
      distributed_push x k lo' (after_notify_one empty_cv (Queue.push x (variables s2)) s2),
    ),
    (
      _,
      rw (e, k),
      distributed_push x k lo' (after_notify_one empty_cv (Queue.push x (variables s2)) s2),
    ),
  )

  -- Each local program's `produce`, once it has entered and its wait is over, returns, has added its
  -- element to the end, and is within the size; their test is an order, so no bound is needed before.
  pub local_produce-Pushed :
      (cv : Bytes) (x : T) (s : S) {s0 s1 s2 : S}
      → enter s ≡ some s0
      → wait cv room_local s0 ≡ some s1
      → wait full_cv room_local s0 ≡ some s2
      → Returns (λ s'. Pushed x (variables s1) (variables s')) (one_cond_produce ops cv x s)
        × Returns (λ s'. Pushed x (variables s2) (variables s')) (two_cond_produce ops x s)
        × Returns (λ s'. Pushed x (variables s2) (variables s')) (multi_produce ops x s)
  unfolding one_cond_produce two_cond_produce multi_produce
  local_produce-Pushed cv x s {s1} {s2} e h k = (
    (_, rw (e, h), local_push x h (notify_all_after cv (Queue.push x (variables s1)) s1)),
    (_, rw (e, k), local_push x k (notify_one_after empty_cv (Queue.push x (variables s2)) s2)),
    (_, rw (e, k), local_push x k (notify_all_after empty_cv (Queue.push x (variables s2)) s2)),
  )

  -- Each queue program's `consume`, once it has entered and its wait is over, returns the first
  -- element, which is there, and has taken it out.
  pub queue_consume-Popped :
      (cv : Bytes) (s : S) {s0 s1 s2 : S}
      → enter s ≡ some s0
      → wait cv some_left s0 ≡ some s1
      → wait empty_cv some_left s0 ≡ some s2
      → Returns (λ r. Popped r.0 (variables s1) (variables r.1)) (single_cv_consume ops cv s)
        × Returns (λ r. Popped r.0 (variables s1) (variables r.1)) (unlock_first_consume ops cv s)
        × Returns (λ r. Popped r.0 (variables s2) (variables r.1)) (two_cv_consume ops s)
        × Returns (λ r. Popped r.0 (variables s2) (variables r.1)) (buffer_adv_consume ops s)
        × Returns (λ r. Popped r.0 (variables s1) (variables r.1)) (one_cond_consume ops cv s)
        × Returns (λ r. Popped r.0 (variables s2) (variables r.1)) (two_cond_consume ops s)
        × Returns (λ r. Popped r.0 (variables s2) (variables r.1)) (multi_consume ops s)
  unfolding single_cv_consume unlock_first_consume two_cv_consume buffer_adv_consume
      one_cond_consume two_cond_consume multi_consume
  queue_consume-Popped cv s {s1} {s2} e h k = (
    (_, rw (e, h), popped h (after_notify_one cv (Queue.take_front (variables s1)).1 s1)),
    (_, rw (e, h), popped h (notify_one_after cv (Queue.take_front (variables s1)).1 s1)),
    (_, rw (e, k), popped k (after_notify_one full_cv (Queue.take_front (variables s2)).1 s2)),
    (_, rw (e, k), popped k (after_notify_one full_cv (Queue.take_front (variables s2)).1 s2)),
    (_, rw (e, h), popped h (notify_all_after cv (Queue.take_front (variables s1)).1 s1)),
    (_, rw (e, k), popped k (notify_one_after full_cv (Queue.take_front (variables s2)).1 s2)),
    (_, rw (e, k), popped k (notify_all_after full_cv (Queue.take_front (variables s2)).1 s2)),
  )
