-- ===== src/Exclusion/Settled/Work.antt =====
-- Each step that is not a call leaves less to do.
use distributed_monitor.Base.{
  ℕ, zero, suc, ◌+◌, ◌≤◌, ◌<◌, ◌≡◌, ◌≢◌, refl, sym, ap, false, some, List, [], ◌∷◌, arith, ◌==◌,
  if◌then◌else◌, count, count-append, ==_ne, ==_refl,
}
use native.Mathlib.Decide.{ℕ_discrete}
use distributed_monitor.Communication.Packet.{Packet}
use distributed_monitor.Communication.Clock.{Delivery, send, send_one}
use distributed_monitor.Exclusion.Algorithm.{send_agreement}
use distributed_monitor.Exclusion.System.{
  Process, System, Act, acquire, acquired, release, answer, released, handled, other_send, Step,
  act, receive, post, update, take_from, taken,
}
use distributed_monitor.Exclusion.Network.{sent_to, post_lem}
use distributed_monitor.Exclusion.Defs.{in_hand}
use distributed_monitor.Exclusion.Handler.{Outcome, skip, grant, delay, collect, on_packet-Outcome}
use distributed_monitor.Exclusion.Settled.{
  is_call, makes_call, Run, begin, next, effort, load, process_work, sum, work,
}

update_self : (i : ℕ) (p : Process) (f : ℕ → Process) → update f i p i ≡ p
update_self i p f = rw (==_refl i)

-- Sums whose terms agree but for one.
sum-same : (f g : ℕ → ℕ) (n : ℕ) → ((x : ℕ) → x < n → g x ≡ f x) → sum g n ≡ sum f n
sum-same f g zero h = refl
sum-same f g (suc n) h =
    omega (arith, h n (omega arith), sum-same f g n (λ x lt. h x (omega arith)))

sum-change :
    (f g : ℕ → ℕ) (n i : ℕ) → i < n → ((x : ℕ) → i ≢ x → g x ≡ f x) → sum g n + f i ≡ sum f n + g i
sum-change f g zero i lt h = absurd (omega arith)
sum-change f g (suc n) i lt h = elim (ℕ_discrete i n) [
  | yes e ↦ rw e (omega (arith, sum-same f g n (λ x lx. h x (λ z. omega (arith, e, z)))))
  | no ne ↦ omega (arith, h n ne, sum-change f g n i (omega arith) h)
]

sum-add : (f g : ℕ → ℕ) (n : ℕ) → sum (λ x. f x + g x) n ≡ sum f n + sum g n
sum-add f g zero = refl
sum-add f g (suc n) = omega (arith, sum-add f g n)

abbrev cost : List Delivery → ℕ
cost = count (λ d. load d.packet)

-- One delivery goes to at most one channel.
sum-one : (w c n : ℕ) (f : ℕ → ℕ) → sum (λ b. if b == c then w + f b else f b) n ≤ w + sum f n
sum-one w c zero f = omega arith
sum-one w c (suc n) f = elim (ℕ_discrete n c) [
  | yes e ↦
      rw e
        (ground (arith, sum-same f (λ b. if b == c then w + f b else f b) c (λ x lx. ground arith)))
  | no ne ↦ ground (arith, sum-one w c n f)
]

-- What is sent weighs at least what reaches `n` processes.
sum-sent_to : (out : List Delivery) (n : ℕ) → sum (λ b. count load (sent_to b out)) n ≤ cost out
sum-sent_to [] zero = omega arith
sum-sent_to [] (suc n) = omega (arith, sum-sent_to [] n)
sum-sent_to (d ∷ ds) n = omega (
  arith,
  sum-sent_to ds n,
  sum-one (load d.packet) d.to n (λ b. count load (sent_to b ds)),
  sum-same
      (λ b.
        if b == d.to then load d.packet + count load (sent_to b ds) else count load (sent_to b ds))
      (λ b. count load (sent_to b (d ∷ ds))) n (λ b lt. ground arith),
)

abbrev row_work : ℕ → (ℕ → ℕ → List Packet) → ℕ → ℕ
row_work n f a = sum (λ b. count load (f a b)) n

post-row :
    (n i : ℕ) (out : List Delivery) (f : ℕ → ℕ → List Packet)
    → row_work n (post f i out) i ≤ row_work n f i + cost out
post-row n i out f = omega (
  arith,
  sum-sent_to out n,
  sum-add (λ b. count load (f i b)) (λ b. count load (sent_to b out)) n,
  sum-same (λ b. count load (f i b) + count load (sent_to b out))
      (λ b. count load (post f i out i b)) n
      (λ b lt. rw (post_lem i i b out f, ==_refl i) (count-append load (f i b) (sent_to b out))),
)

post-channels :
    (n i : ℕ) (out : List Delivery) (f : ℕ → ℕ → List Packet)
    → i < n
    → sum (row_work n (post f i out)) n ≤ sum (row_work n f) n + cost out
post-channels n i out f lt = omega (
  arith,
  post-row n i out f,
  sum-change (row_work n f) (row_work n (post f i out)) n i lt (λ a ne.
      sum-same (λ b. count load (f a b)) (λ b. count load (post f i out a b)) n
        (λ b lb. rw (post_lem i a b out f, ==_ne a i (λ z. ne (sym z))))),
)

take_from-row :
    (n i j : ℕ) (packet : Packet) (rest : List Packet) (f : ℕ → ℕ → List Packet)
    → i < n
    → f j i ≡ packet ∷ rest
    → row_work n (take_from f j i rest) j + load packet ≡ row_work n f j
take_from-row n i j packet rest f li e = omega (
  arith,
  ap (count load) e,
  row_taken,
  sum-change (λ b. count load (f j b)) (λ b. count load (take_from f j i rest j b)) n i li
      (λ b ne. rw (==_refl j, ==_ne b i (λ z. ne (sym z)))),
)
  where
    row_taken : count load (take_from f j i rest j i) ≡ count load rest
    row_taken = rw (==_refl j, ==_refl i)

Outcome-work :
    {p : Process} {packet : Packet} {p' : Process} {out : List Delivery}
    → p.hand ≡ some packet
    → Outcome p packet p' out
    → process_work p' + cost out < process_work p
unfolding send_agreement send_one send
Outcome-work e (skip o) = ground arith
Outcome-work e (grant t c) = ground arith
Outcome-work e (delay t c) = ground arith
Outcome-work e (collect m t) = ground arith

Act-work :
    {n : ℕ} {p p' : Process} {out : List Delivery} (a : Act n p p' out)
    → is_call a ≡ false
    → process_work p' + cost out < process_work p
unfolding send_agreement send_one send
Act-work (acquire name r e) h = absurd (cc)
Act-work (acquired e c) h = ground arith
Act-work (release name r e) h = absurd (cc)
Act-work (answer e) h = ground arith
Act-work (released e) h = ground arith
Act-work {p} (handled {packet} f e r) h = Outcome-work e (on_packet-Outcome p packet r)
Act-work (other_send t message recipient lt ne a b) h = absurd (cc)

pub Step-work :
    {n : ℕ} {s t : System} (st : Step n s t) → makes_call st ≡ false → work n t < work n s
Step-work {n} {s} (act i {p} {out} li a) h = omega (
  arith,
  Act-work a h,
  post-channels n i out s.channel li,
  ap process_work (update_self i p s.process),
  sum-change (λ x. process_work (s.process x)) (λ x. process_work (update s.process i p x)) n i li
      (λ x ne. rw (==_ne i x ne)),
)
Step-work {n} {s} (receive i j {packet} {rest} li lj free first) h = omega (
  arith,
  take_from-row n i j packet rest s.channel li first,
  sum-change (row_work n s.channel) (row_work n (take_from s.channel j i rest)) n j lj (λ a ne.
      sum-same (λ b. count load (s.channel a b))
        (λ b. count load (take_from s.channel j i rest a b)) n
        (λ b lb. rw (==_ne a j (λ z. ne (sym z))))),
  ap (in_hand effort) free,
  ap process_work (update_self i (taken (s.process i) packet) s.process),
  sum-change (λ x. process_work (s.process x))
      (λ x. process_work (update s.process i (taken (s.process i) packet) x)) n i li
      (λ x ne. rw (==_ne i x ne)),
)

-- However the receiving threads and the main threads take turns, they come to an end: the steps of a
-- run of `n` processes in which no program makes a call, and the work that is left after it, are
-- together at most the work that there was before. The work counts what is still to be done for each
-- packet on the way, in a hand or in a release, and for each wait.
pub Run-work : {n : ℕ} {s : System} {l : ℕ} {t : System} → Run n s l t → l + work n t ≤ work n s
Run-work begin = omega arith
Run-work (next r st h) = omega (arith, Run-work r, Step-work st h)
