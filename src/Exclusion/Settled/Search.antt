-- ===== src/Exclusion/Settled/Search.antt =====
-- Whether a step that is not a call is possible, and which.
use distributed_monitor.Base.{
  ℕ, zero, suc, ◌<◌, ◌≡◌, ◌⊎◌, refl, subst, inl, inr, false, List, [], ◌∷◌, Option, none, some,
  arith, Bool-cases, Bytes,
}
use native.Mathlib.Decide.{ℕ_discrete}
use distributed_monitor.Communication.Packet.{Packet}
use distributed_monitor.Communication.Clock.{Delivery}
use distributed_monitor.Exclusion.Algorithm.{are_agreements_complete}
use distributed_monitor.Exclusion.System.{
  Main, running, acquiring, releasing, Process, System, Act, acquired, answer, released, handled,
  Step, act, receive, on_packet, is_releasing,
}
use distributed_monitor.Exclusion.Progress.{IsQuiet}
use distributed_monitor.Exclusion.Settled.{is_call, makes_call}

-- A process or nothing, among the first `n`.
search_below {ℓ κ} :
    {P : ℕ → Type ℓ} {Q : ℕ → Type κ} (n : ℕ)
    → ((i : ℕ) → i < n → P i ⊎ Q i)
    → ((i : ℕ) × (i < n) × P i) ⊎ ((i : ℕ) → i < n → Q i)
search_below zero h = inr (λ i lt. absurd (omega arith))
search_below {Q} (suc n) h = elim (h n (omega arith)) [
  | inl p ↦ inl (n, omega arith, p)
  | inr q ↦ elim (search_below n (λ i lt. h i (omega arith))) [
    | inl (i, lt, p) ↦ inl (i, omega arith, p)
    | inr rest ↦
        inr (λ i lt. elim (ℕ_discrete n i) [ yes e ↦ subst Q e q | no ne ↦ rest i (omega arith) ])
  ]
]

-- A step of the process on its own.
abbrev HasStep : ℕ → Process → Type 0
HasStep n p = (p' : Process) × (out : List Delivery) × (a : Act n p p' out) × (is_call a ≡ false)

-- The main thread runs the program, or lacks an agreement.
pub record IsPatient (p : Process) : Type 0 where
  pub free : is_releasing p.main ≡ false
  pub lacks :
      (name : Bytes) (agreements : List Packet)
      → p.main ≡ acquiring name agreements
      → are_agreements_complete p.exclusion agreements ≡ false

agreements_of : Main → List Packet
agreements_of running = []
agreements_of (acquiring name agreements) = agreements
agreements_of (releasing name rest) = []

main_moves : (n : ℕ) (p : Process) (main : Main) → p.main ≡ main → HasStep n p ⊎ IsPatient p
unfolding agreements_of
main_moves n p running e = inr (record { free = ground arith; lacks = λ name ag a. cc })
main_moves n p (acquiring name ag) e = elim (Bool-cases (are_agreements_complete p.exclusion ag)) [
  | inl c ↦ inl (_, _, acquired e c, refl)
  | inr c ↦ inr (record {
    free = ground arith;
    lacks = λ other ag' a.
        subst (λ z. are_agreements_complete p.exclusion z ≡ false) (ground (arith, e, a)) c;
  })
]
main_moves n p (releasing name []) e = inl (_, _, released e, refl)
main_moves n p (releasing name (request ∷ rest)) e = inl (_, _, answer e, refl)

-- The handler accepts what the receiving thread holds.
abbrev pub Accepts : Process → Type 0
Accepts p =
    (packet : Packet)
    → p.hand ≡ some packet
    → (r : Process × List Delivery) × (on_packet p packet ≡ some r)

hand_moves :
    (n : ℕ) (p : Process) (hand : Option Packet)
    → p.hand ≡ hand
    → is_releasing p.main ≡ false
    → Accepts p
    → HasStep n p ⊎ (p.hand ≡ none)
hand_moves n p none e free accepts = inr e
hand_moves n p (some packet) e free accepts =
    let ((p', out), h) = accepts packet e in inl (p', out, handled (ground (arith, free)) e h, refl)

process_moves : (n : ℕ) (p : Process) → Accepts p → HasStep n p ⊎ (IsPatient p × (p.hand ≡ none))
process_moves n p accepts = elim (main_moves n p p.main refl) [
  | inl m ↦ inl m
  | inr patient ↦ elim (hand_moves n p p.hand refl patient.free accepts) [
    | inl m ↦ inl m
    | inr h ↦ inr (patient, h)
  ]
]

-- A step of the system that is not a call.
abbrev pub GoesOn : ℕ → System → Type 0
GoesOn n s = (t : System) × (st : Step n s t) × (makes_call st ≡ false)

channel_moves :
    (n i j : ℕ) (s : System) (packets : List Packet)
    → i < n
    → j < n
    → (s.process i).hand ≡ none
    → s.channel j i ≡ packets
    → GoesOn n s ⊎ (s.channel j i ≡ [])
channel_moves n i j s [] li lj free e = inr e
channel_moves n i j s (packet ∷ rest) li lj free e = inl (_, receive i j li lj free e, refl)

pub record IsIdle (n : ℕ) (s : System) : Type 0 where
  pub quiet : IsQuiet n s
  pub patient : (i : ℕ) → i < n → IsPatient (s.process i)

-- Some step that is not a call is possible, or nothing is on the way and nobody can go on.
pub search_step :
    (n : ℕ) (s : System) → ((i : ℕ) → i < n → Accepts (s.process i)) → GoesOn n s ⊎ IsIdle n s
search_step n s accepts =
    elim (search_below n (λ i li. process_moves n (s.process i) (accepts i li))) [
      | inl (i, li, (p', out, a, h)) ↦ inl (_, act i li a, h)
      | inr still ↦
          elim (search_below n (λ i li.
            search_below n
              (λ j lj. channel_moves n i j s (s.channel j i) li lj (still i li).1 refl))) [
                | inl (i, li, (j, lj, g)) ↦ inl g
                | inr empty ↦ inr (record {
                  quiet = record {
                    channels = λ i j li lj. empty j lj i li;
                    hands = λ i li. (still i li).1;
                  };
                  patient = λ i li. (still i li).0;
                })
              ]
    ]
