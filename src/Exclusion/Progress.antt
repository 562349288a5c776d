-- ===== src/Exclusion/Progress.antt =====
-- When nothing is on the way, some process can go on: the algorithm does not deadlock.
use distributed_monitor.Base.{
  ℕ, zero, suc, ◌^◌, ◌<◌, ◌≡◌, ◌≢◌, ◌⊎◌, refl, sym, subst, ap, ◌∙◌, inl, inr, true, false, List, [],
  ◌∷◌, Option, none, some, arith, if◌then◌else◌, count, All, Bool-cases, Option-cases, Bytes,
  bytes_eq, bytes_eq_iff, bytes_eq_refl,
}
use native.Mathlib.Decide.{ℕ_discrete}
use distributed_monitor.Communication.Packet.{mutex_request, mutex_agreement, Packet}
use distributed_monitor.Exclusion.Algorithm.{are_agreements_complete}
use distributed_monitor.Exclusion.System.{
  Main, running, acquiring, releasing, busy_with, Process, System, Owns, Reach,
}
use distributed_monitor.Exclusion.Defs.{
  weigh, weigh_stale, left_over, put_off, queued, Before, Inv, IsMain,
}
use distributed_monitor.Exclusion.Quorum.{complete_of_each}
use distributed_monitor.Exclusion.Invariant.{Reach-Inv}
use distributed_monitor.Exclusion.Delayed.{comes_first, stored_at, Reach-IsDelayed}

-- Nothing is on the way, and no packet waits to be handled.
pub record IsQuiet (n : ℕ) (s : System) : Type 0 where
  pub channels : (i j : ℕ) → i < n → j < n → s.channel i j ≡ []
  pub hands : (i : ℕ) → i < n → (s.process i).hand ≡ none

-- The process has the mutex, is about to release it, or has all agreements that it needs.
pub data CanGoOn (name : Bytes) (p : Process) : Type 0 where
  owns : Owns name p → CanGoOn name p
  leaves : {rest : List Packet} → p.main ≡ releasing name rest → CanGoOn name p
  completes :
      {agreements : List Packet}
      → p.main ≡ acquiring name agreements
      → are_agreements_complete p.exclusion agreements ≡ true
      → CanGoOn name p

find_other :
    (i : ℕ) (f : ℕ → ℕ) (n : ℕ)
    → ((b : ℕ) → b < n → i ≢ b → f b ≡ 1) ⊎ ((b : ℕ) × (b < n) × (i ≢ b) × (f b ≢ 1))
find_other i f zero = inl (λ b lt ne. absurd (omega arith))
find_other i f (suc n) = elim (find_other i f n) [
  | inr (b, lt, ne, h) ↦ inr (b, omega arith, ne, h)
  | inl h ↦ elim (ℕ_discrete i n) [
    | yes e ↦ inl (λ b lt ne. h b (omega arith) ne)
    | no ne ↦ elim (ℕ_discrete (f n) 1) [
      | no bad ↦ inr (n, omega arith, ne, bad)
      | yes good ↦ inl (λ b lt nb. elim (ℕ_discrete b n) [
        | yes e ↦ ap f e ∙ good
        | no other ↦ h b (omega arith) nb
      ])
    ]
  ]
]

-- A request that is stored, with its right stamp, is later than the request of who stores it.
stored-Before :
    (o : Option ℕ) (m : Bytes) (i j t : ℕ) (l : List Packet)
    → j ≢ i
    → All (λ r. comes_first o j r ≡ true) l
    → count (weigh_stale m i t) l ≡ 0
    → count (weigh mutex_request m i) l ≢ 0
    → (u : ℕ) × (o ≡ some u) × Before u j t i
stored-Before o m i j t [] ne h stale some_ = absurd (some_ refl)
stored-Before none m i j t (r ∷ l) ne h stale some_ = cc
stored-Before (some u) m i j t (r ∷ l) ne h stale some_ =
    elim (ℕ_discrete (weigh mutex_request m i r) 0) [
      | yes e ↦ stored-Before (some u) m i j t l ne h.1 (omega arith) (λ z. some_ (omega arith))
      | no e ↦ (u, refl, ground arith)
    ]

abbrev pub SomeCanGoOn : ℕ → Bytes → System → Type 0
SomeCanGoOn n name s = (j : ℕ) × (j < n) × CanGoOn name (s.process j)

abbrev pub Waits : ℕ → Bytes → System → ℕ → ℕ → Type 0
Waits n name s t i =
    i < n
    → (ag : List Packet) → (s.process i).main ≡ acquiring name ag
    → queued name (s.process i) ≡ some t
    → SomeCanGoOn n name s

module _ {names : List Bytes} {n k : ℕ} {s : System} (name : Bytes) (small : n < 2 ^ 31)
    (fits : k < 2 ^ 64) (r : Reach names n k s) (quiet : IsQuiet n s) where
  inv : Inv n k name s
  inv = Reach-Inv name small fits r

  -- One that lacks an agreement has a request that another has put off.
  waits_for :
      (i t : ℕ)
      → i < n
      → (ag : List Packet) → (s.process i).main ≡ acquiring name ag
      → queued name (s.process i) ≡ some t
      → are_agreements_complete (s.process i).exclusion ag ≡ false
      → (j : ℕ) × (j < n)
        × (i ≢ j)
        × (count (weigh mutex_request name i) (put_off name (s.process j)) ≢ 0)
        × (count (weigh_stale name i t) (put_off name (s.process j)) ≡ 0)
  waits_for i t li ag e q missing =
      elim (find_other i (λ b. count (weigh mutex_agreement name b) ag) n) [
        | inl each ↦
            let all : IsMain n i (s.process i) (acquiring name ag) =
              subst (IsMain n i (s.process i)) e (inv.local i li).main_ok in
            let full = complete_of_each name ag small li (inv.local i li) all.0 each in cc
        | inr (j, lj, ne, bad) ↦
            let pair = inv.pairs i j li lj ne in
            let tokens =
              rw
                (
                  quiet.channels i j li lj,
                  quiet.channels j i lj li,
                  quiet.hands i li,
                  quiet.hands j lj,
                  e,
                  bytes_eq_refl name,
                )
                at pair.tokens in
            (j, lj, ne, λ z. bad (omega arith), omega (arith, pair.stamps t q))
      ]

  -- Who has put off a request of `i` can go on, or waits with an earlier request of its own.
  next_of :
      (i t j : ℕ)
      → j < n
      → i ≢ j
      → ((u : ℕ)
          → Before u j t i
          → (ag : List Packet) → (s.process j).main ≡ acquiring name ag
          → queued name (s.process j) ≡ some u
          → SomeCanGoOn n name s)
      → (main : Main) → (s.process j).main ≡ main
      → (rest : List Packet) → rest ≡ stored_at name (s.process j)
      → busy_with name main ≡ false ⊎ ((ag : List Packet) × (main ≡ acquiring name ag))
      → count (weigh_stale name i t) rest ≡ 0
      → count (weigh mutex_request name i) rest ≢ 0
      → SomeCanGoOn n name s
  next_of i t j lj ne earlier main e rest same free stale some_ =
      let delayed =
        subst
          (λ z.
            All (λ q. comes_first (queued name (s.process j)) z q ≡ true)
              (stored_at name (s.process j)))
          (inv.local j lj).rank (Reach-IsDelayed r j name) in
      let (u, qu, b) =
        stored-Before (queued name (s.process j)) name i j t rest (λ z. ne (sym z))
          (subst (All (λ q. comes_first (queued name (s.process j)) j q ≡ true)) (sym same) delayed)
          stale some_ in
      elim free [
        | inl f ↦
            (j, lj, owns (record { stamp = u; queued = qu; settled = ap (busy_with name) e ∙ f }))
        | inr (ag, a) ↦ earlier u b ag (e ∙ a) qu
      ]

  -- By main thread of the process that has put off the request.
  by_main :
      (i t j : ℕ)
      → j < n
      → i ≢ j
      → ((u : ℕ) → Before u j t i → Waits n name s u j)
      → (main : Main) → (s.process j).main ≡ main
      → count (weigh_stale name i t) (left_over name (stored_at name (s.process j)) main) ≡ 0
      → count (weigh mutex_request name i) (left_over name (stored_at name (s.process j)) main) ≢ 0
      → SomeCanGoOn n name s
  by_main i t j lj ne smaller running e stale some_ =
      next_of i t j lj ne (λ u b. smaller u b lj) running e _ refl (inl refl) stale some_
  by_main i t j lj ne smaller (acquiring other ag) e stale some_ =
      elim (Bool-cases (bytes_eq other name)) [
        | inl f ↦
            next_of i t j lj ne (λ u b. smaller u b lj) (acquiring other ag) e _ refl
              (inr (ag, ap (λ z. acquiring z ag) ((bytes_eq_iff other name).0 f))) stale some_
        | inr f ↦
            next_of i t j lj ne (λ u b. smaller u b lj) (acquiring other ag) e _ refl (inl f) stale
              some_
      ]
  by_main i t j lj ne smaller (releasing other rest) e stale some_ =
      elim (Bool-cases (bytes_eq other name)) [
        | inl f ↦ (j, lj, leaves (e ∙ ap (λ z. releasing z rest) ((bytes_eq_iff other name).0 f)))
        | inr f ↦
            next_of i t j lj ne (λ u b. smaller u b lj) (releasing other rest) e
              (if bytes_eq other name then rest else stored_at name (s.process j)) (rw f refl)
              (inl f) stale some_
      ]

  step : (t i : ℕ) → ((u j : ℕ) → Before u j t i → Waits n name s u j) → Waits n name s t i
  step t i smaller li ag e q =
      elim (Bool-cases (are_agreements_complete (s.process i).exclusion ag)) [
        | inl c ↦ (i, li, completes e c)
        | inr c ↦
            let (j, lj, ne, some_, stale) = waits_for i t li ag e q c in
            by_main i t j lj ne (λ u. smaller u j) (s.process j).main refl stale some_
      ]

  -- By the stamp, and then by the rank.
  by_rank :
      (t : ℕ)
      → ((u j : ℕ) → u < t → Waits n name s u j)
      → (bound i : ℕ) → i < bound
      → Waits n name s t i
  by_rank t below zero i lt = absurd (omega arith)
  by_rank t below (suc bound) i lt = step t i (λ u j b. elim b [
    | inl earlier ↦ below u j earlier
    | inr (same, lower) ↦
        subst (λ z. Waits n name s z j) (sym same) (by_rank t below bound j (omega (arith, lower)))
  ])

  by_stamp : (bound t i : ℕ) → t < bound → Waits n name s t i
  by_stamp zero t i lt = absurd (omega arith)
  by_stamp (suc bound) t i lt =
      by_rank t (λ u j b. by_stamp bound u j (omega (arith, b))) (suc i) i (omega arith)

  -- No deadlock over `MpiSimpleCommunicator`: in a state that `n` processes, fewer than 2 ^ 31, reach in fewer than 2 ^ 64
  -- steps, if nothing is on the way, no packet waits to be handled, and a process waits for a
  -- mutex, then some process owns that mutex, or is about to release it, or waits for it and has
  -- all agreements that it needs.
  pub waiting-SomeCanGoOn :
      (i : ℕ)
      → i < n
      → (ag : List Packet) → (s.process i).main ≡ acquiring name ag
      → SomeCanGoOn n name s
  waiting-SomeCanGoOn i li ag e = elim (Option-cases (queued name (s.process i))) [
    | inl none_ ↦
        let main : IsMain n i (s.process i) (acquiring name ag) =
          subst (IsMain n i (s.process i)) e (inv.local i li).main_ok in
        absurd (main.1 none_)
    | inr (t, q) ↦ by_stamp (suc t) t i (omega arith) li ag e q
  ]
