-- ===== src/Exclusion/Settled.antt =====
-- Runs of the exclusion algorithm in which no program makes a call: the steps that the receiving
-- threads, the waits and the releases that have begun still take, and what they have left to do.
pub mod Work
pub mod Registered
pub mod Search
pub mod Served
pub mod Owned
use distributed_monitor.Base.{
  ℕ, zero, suc, ◌+◌, ◌*◌, ◌<◌, ◌≡◌, Bool, true, false, List, [], ◌∷◌, if◌then◌else◌, count, length,
}
use distributed_monitor.Communication.Packet.{mutex_request, type_eq, Packet}
use distributed_monitor.Communication.Clock.{Delivery}
use distributed_monitor.Exclusion.System.{
  Main, running, acquiring, releasing, Process, System, Act, acquire, acquired, release, answer,
  released, handled, other_send, Step, act, receive,
}
use distributed_monitor.Exclusion.Defs.{in_hand}

-- The calls of the program, the other components' packets included.
abbrev pub is_call : {n : ℕ} {p p' : Process} {out : List Delivery} → Act n p p' out → Bool
is_call (acquire name r e) = true
is_call (acquired e c) = false
is_call (release name r e) = true
is_call (answer e) = false
is_call (released e) = false
is_call (handled f e h) = false
is_call (other_send t message recipient lt ne a b) = true

abbrev pub makes_call : {n : ℕ} {s t : System} → Step n s t → Bool
makes_call (act i li a) = is_call a
makes_call (receive i j li lj f c) = false

-- `l` steps from `s` to `t`, none of which is a call.
pub data Run (n : ℕ) (s : System) : ℕ → System → Type 0 where
  begin : Run n s 0 s
  next :
      {l : ℕ} {t u : System}
      → Run n s l t
      → (st : Step n t u) → makes_call st ≡ false
      → Run n s (suc l) u

-- What is left to do for a packet that the receiving thread holds: a request may have to be
-- answered, and the answer received and handled.
abbrev pub effort : Packet → ℕ
effort p = if type_eq p.message_type mutex_request then 3 else 1

abbrev pub load : Packet → ℕ
load p = suc (effort p)

abbrev pub main_work : Main → ℕ
main_work running = 0
main_work (acquiring name agreements) = 1
main_work (releasing name rest) = suc (3 * length rest)

abbrev pub process_work : Process → ℕ
process_work p = in_hand effort p.hand + main_work p.main

abbrev pub sum : (ℕ → ℕ) → ℕ → ℕ
sum f zero = 0
sum f (suc n) = f n + sum f n

abbrev pub channel_work : ℕ → System → ℕ
channel_work n s = sum (λ a. sum (λ b. count load (s.channel a b)) n) n

-- A bound on the steps that `n` processes can take before the next call.
abbrev pub work : ℕ → System → ℕ
work n s = sum (λ i. process_work (s.process i)) n + channel_work n s
