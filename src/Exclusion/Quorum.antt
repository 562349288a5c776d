-- ===== src/Exclusion/Quorum.antt =====
-- When as many agreements are in as there are other processes, each other process has agreed.
use distributed_monitor.Base.{
  ℕ, zero, suc, ◌+◌, ◌-◌, ◌%◌, ◌^◌, ◌≤◌, ◌<◌, ◌≡◌, ◌≢◌, refl, sym, ap, true, List, [], ◌∷◌, arith,
  ltb, if◌then◌else◌, length, count, All, Bytes, ◌∙◌,
}
use native.Mathlib.Decide.{ℕ_discrete}
use distributed_monitor.Communication.Packet.{MessageType, mutex_agreement, Packet}
use distributed_monitor.Exclusion.Algorithm.{are_agreements_complete}
use distributed_monitor.Exclusion.System.{Process}
use distributed_monitor.Exclusion.Defs.{weigh, IsAnswer, IsAgreement, Local}

sum_below : ℕ → (ℕ → ℕ) → ℕ
sum_below zero f = 0
sum_below (suc n) f = sum_below n f + f n

sum_below-zero : (n : ℕ) → sum_below n (λ b. 0) ≡ 0
unfolding sum_below
sum_below-zero zero = refl
sum_below-zero (suc n) = omega (arith, sum_below-zero n)

sum_below-add : (n : ℕ) (f g : ℕ → ℕ) → sum_below n (λ b. f b + g b) ≡ sum_below n f + sum_below n g
unfolding sum_below
sum_below-add zero f g = refl
sum_below-add (suc n) f g = omega (arith, sum_below-add n f g)

-- A sum over different indices, with two of them empty, stays two below their number.
sum_below-gap :
    (i j : ℕ) (f : ℕ → ℕ) (n : ℕ)
    → i ≢ j
    → f i ≡ 0
    → f j ≡ 0
    → ((b : ℕ) → b < n → f b ≤ 1)
    → sum_below n f + (if ltb i n then 1 else 0) + (if ltb j n then 1 else 0) ≤ n
unfolding sum_below
sum_below-gap i j f zero ne hi hj h = ground arith
sum_below-gap i j f (suc n) ne hi hj h =
    let rest = sum_below-gap i j f n ne hi hj (λ b lt. h b (omega arith)) in
    let last = h n (omega arith) in
    let at_i : i ≡ n → f n ≡ 0 = λ e. ap f (sym e) ∙ hi in
    let at_j : j ≡ n → f n ≡ 0 = λ e. ap f (sym e) ∙ hj in ground (arith, rest, last, at_i, at_j)

-- A packet from one of `n` processes is counted once.
sum_below-weigh :
    (t : MessageType) (n i : ℕ) (m : Bytes) (p : Packet)
    → IsAnswer t n i m p
    → sum_below n (λ b. weigh t m b p) ≡ 1
unfolding sum_below
sum_below-weigh t n i m p h = from n h.0
  where
    below : (r : ℕ) → r ≤ p.source → sum_below r (λ b. weigh t m b p) ≡ 0
    below zero le = refl
    below (suc r) le = ground (arith, below r)

    from : (r : ℕ) → p.source < r → sum_below r (λ b. weigh t m b p) ≡ 1
    from zero lt = absurd (omega arith)
    from (suc r) lt = ground (arith, below r, from r)

sum_below-count :
    (t : MessageType) (n i : ℕ) (m : Bytes) (ag : List Packet)
    → All (IsAnswer t n i m) ag
    → sum_below n (λ b. count (weigh t m b) ag) ≡ length ag
sum_below-count t n i m [] h = sum_below-zero n
sum_below-count t n i m (p ∷ ag) h = omega (
  arith,
  sum_below-add n (λ b. weigh t m b p) (λ b. count (weigh t m b) ag),
  sum_below-weigh t n i m p h.0,
  sum_below-count t n i m ag h.1,
)

own_count :
    (t : MessageType) (n i : ℕ) (m : Bytes) (ag : List Packet)
    → All (IsAnswer t n i m) ag
    → count (weigh t m i) ag ≡ 0
own_count t n i m [] h = refl
own_count t n i m (p ∷ ag) h = ground (arith, own_count t n i m ag)

-- With one packet at most from each process, as many packets as there are other processes mean one
-- from each.
pub each_answered :
    {n i j : ℕ} (t : MessageType) (m : Bytes) (ag : List Packet)
    → n < 2 ^ 31
    → i < n
    → j < n
    → i ≢ j
    → All (IsAnswer t n i m) ag
    → ((b : ℕ) → b < n → i ≢ b → count (weigh t m b) ag ≤ 1)
    → length ag ≡ (n + 2 ^ 64 - 1) % 2 ^ 64
    → count (weigh t m j) ag ≡ 1
each_answered {n} {i} {j} t m ag small li lj ne all once full = elim (ℕ_discrete (f j) 0) [
  | no some_ ↦ omega (arith, once j lj ne)
  | yes missing ↦ absurd (
      omega (
        arith,
        full,
        sum_below-count t n i m ag all,
        sum_below-gap i j f n ne (own_count t n i m ag all) missing at_most,
        if_below i n li,
        if_below j n lj,
      ))
]
  where
    f : ℕ → ℕ
    f b = count (weigh t m b) ag

    if_below : (a b : ℕ) → a < b → ◌≡◌ {A = ℕ} (if ltb a b then 1 else 0) 1
    if_below a b lt = ground arith

    at_most : (b : ℕ) → b < n → f b ≤ 1
    at_most b lt = elim (ℕ_discrete i b) [
      | yes e ↦ omega (arith, own_count t n i m ag all, ap f e)
      | no other ↦ once b lt other
    ]

-- Each other process has agreed.
pub quorum :
    {n i j k : ℕ} {p : Process} (m : Bytes) (ag : List Packet)
    → n < 2 ^ 31
    → i < n
    → j < n
    → i ≢ j
    → Local n i k p
    → All (IsAgreement n i m) ag
    → ((b : ℕ) → b < n → i ≢ b → count (weigh mutex_agreement m b) ag ≤ 1)
    → are_agreements_complete p.exclusion ag ≡ true
    → count (weigh mutex_agreement m j) ag ≡ 1
unfolding are_agreements_complete
quorum m ag small li lj ne l all once full =
    each_answered mutex_agreement m ag small li lj ne all once (ground (arith, l.size))

sum_below-ones :
    (i : ℕ) (f : ℕ → ℕ) (n : ℕ)
    → f i ≡ 0
    → ((b : ℕ) → b < n → i ≢ b → f b ≡ 1)
    → sum_below n f + (if ltb i n then 1 else 0) ≡ n
unfolding sum_below
sum_below-ones i f zero hi h = ground arith
sum_below-ones i f (suc n) hi h =
    let rest = sum_below-ones i f n hi (λ b lt. h b (omega arith)) in
    elim (ℕ_discrete i n) [
      | yes e ↦ (let at_i : f n ≡ 0 = ap f (sym e) ∙ hi in ground (arith, rest, at_i))
      | no other ↦ (let last = h n (omega arith) other in ground (arith, rest, last))
    ]

-- With an agreement from each other process, all agreements are in.
pub complete_of_each :
    {n i k : ℕ} {p : Process} (m : Bytes) (ag : List Packet)
    → n < 2 ^ 31
    → i < n
    → Local n i k p
    → All (IsAgreement n i m) ag
    → ((b : ℕ) → b < n → i ≢ b → count (weigh mutex_agreement m b) ag ≡ 1)
    → are_agreements_complete p.exclusion ag ≡ true
unfolding are_agreements_complete
complete_of_each {n} {i} m ag small li l all each = ground (
  arith,
  l.size,
  sum_below-count mutex_agreement n i m ag all,
  sum_below-ones i (λ b. count (weigh mutex_agreement m b) ag) n
      (own_count mutex_agreement n i m ag all) each,
)
