-- ===== src/Condition/Steps.antt =====
-- Each step of the processes that share a condition variable keeps the invariant.
use distributed_monitor.Base.{
  ℕ, ◌^◌, ◌≤◌, ◌<◌, ◌≡◌, ◌≢◌, ◌⊎◌, refl, sym, ap, subst, ◌∙◌, inl, inr, true, false, List, [], ◌∷◌,
  ◌++◌, Option, none, some, some_inj, arith, All, Bool-cases, Bytes,
}
use native.Mathlib.Decide.{ℕ_discrete}
use distributed_monitor.Communication.Packet.{Packet}
use distributed_monitor.Communication.Clock.{Delivery}
use distributed_monitor.Exclusion.System.{take_from}
use distributed_monitor.Exclusion.Network.{sent_to}
use distributed_monitor.Condition.System.{
  Stage, outside, notifying, sleeping, confirming, Member, System, Act, owns, may_leave, Step,
  enter, leave, act, handle, on_condition_packet, Reach, start, later,
}
use distributed_monitor.Condition.Protocol.{Pair, aims, ending}
use distributed_monitor.Condition.Members.{Kind, type_of, IsOurs}
use distributed_monitor.Condition.Acts.{holds, Act-Local, Act-IsOurs, Act-silent, Act-holds}
use distributed_monitor.Condition.Movers.{Act-asker, Act-replier}
use distributed_monitor.Condition.Handle.{Effects, packet, result, on_condition_packet-result}
use distributed_monitor.Condition.Effects.{result-Effects}
use distributed_monitor.Condition.Moved.{Inv, Inv-start, IsMove, IsMove-Inv}

-- A notification that is aimed, or a wait that ends, belongs to the owner.
aims-holds : (i : ℕ) (stage : Stage) → aims i stage ≢ 0 → holds stage ≡ true
aims-holds i outside h = absurd (h refl)
aims-holds i (notifying rs) h = refl
aims-holds i sleeping h = absurd (h refl)
aims-holds i (confirming ps) h = absurd (h refl)

ending-holds : (stage : Stage) → ending stage ≢ 0 → holds stage ≡ true
ending-holds outside h = absurd (h refl)
ending-holds (notifying rs) h = absurd (h refl)
ending-holds sleeping h = absurd (h refl)
ending-holds (confirming ps) h = refl

ending-le : (stage : Stage) → ending stage ≤ 1
ending-le outside = omega arith
ending-le (notifying rs) = omega arith
ending-le sleeping = omega arith
ending-le (confirming ps) = omega arith

owns-some : (o : Option ℕ) (i : ℕ) → owns o i ≡ true → o ≡ some i
owns-some none i h = cc
owns-some (some j) i h = ap (λ k. some k) (ground (arith, h))

may_leave-holds : (stage : Stage) → may_leave stage ≡ true → holds stage ≢ true
may_leave-holds outside h g = cc
may_leave-holds (notifying rs) h g = cc
may_leave-holds sleeping h g = cc
may_leave-holds (confirming ps) h g = cc

packet-eta :
    {name : Bytes} {j : ℕ} (k : Kind) (p : Packet)
    → p.source ≡ j
    → p.message ≡ name
    → p.message_type ≡ type_of k
    → packet name p.lamport_time j k ≡ p
packet-eta k p es em et = rw (sym es, sym em, sym et) refl

module _ {name : Bytes} {n : ℕ} {s : System} (small : n < 2 ^ 31) (inv : Inv name n s) where
  open inv use {local, keeps, carried, alone, pairs}

  -- No process but the owner aims a notification or ends a wait.
  unheld : (i j : ℕ) → j < n → i ≢ j → owns s.owner i ≡ true → holds (s.member j).stage ≡ false
  unheld i j lj ne o = elim (Bool-cases (holds (s.member j).stage)) [
    | inr e ↦ e
    | inl e ↦ absurd (ne (some_inj i j (sym (owns-some s.owner i o) ∙ keeps j lj e)))
  ]

  act-IsMove :
      (i : ℕ) {m : Member} {out : List Delivery}
      → i < n
      → Act name (owns s.owner i) (s.member i) m out
      → IsMove inv i m out s.channel
  act-IsMove i {m} li a = record {
    new_local = Act-Local name n i (local i li) a;
    new_keeps = λ h. elim (Act-holds name n i (local i li) a h) [
      | inl e ↦ keeps i li e
      | inr e ↦ owns-some s.owner i e
    ];
    own = λ b. Act-IsOurs name n i (local i li) b a;
    silent = Act-silent name n i (local i li) a;
    still_carried = carried;
    still_alone = alone;
    asker = λ y ly ne.
        Act-asker name n i (local i li) small li
          (λ b lb nb.
            omega (arith, (pairs i b li lb nb).counts.answered, ending-le (s.member i).stage))
          a ly ne
          (λ o. elim (ℕ_discrete (aims i (s.member y).stage) 0) [
            | yes e ↦ e
            | no e ↦ (let h = aims-holds i (s.member y).stage e in let g = unheld i y ly ne o in cc)
          ])
          (pairs i y li ly ne);
    replier = λ x lx ne.
        Act-replier name n i (local i li) a lx (λ e. ne (sym e))
          (λ o. elim (ℕ_discrete (ending (s.member x).stage) 0) [
            | yes e ↦ e
            | no e ↦
                (let h = ending-holds (s.member x).stage e in
                  let g = unheld i x lx (λ e'. ne (sym e')) o in cc)
          ])
          (pairs x i lx li ne);
    apart = λ x y lx ly ne nx ny. pairs x y lx ly ne;
  }

  module _ (i j : ℕ) {p : Packet} {rest : List Packet} (li : i < n) (lj : j < n)
      (first : s.channel j i ≡ p ∷ rest) where
    pub distinct : i ≢ j
    distinct e =
        (let z : [] ≡ p ∷ rest =
            sym (alone i li) ∙ subst (λ x. s.channel x i ≡ p ∷ rest) (sym e) first in
          cc)

    whole : All (IsOurs name j) (p ∷ rest)
    whole = subst (All (IsOurs name j)) first (carried j i lj li)

    pub kind : Kind
    kind = whole.0.2

    pub p-eta : packet name p.lamport_time j kind ≡ p
    unfolding kind
    p-eta = packet-eta kind p whole.0.0 whole.0.1 whole.0.3

    pub by_result : on_condition_packet name (s.member i) p ≡ result (s.member i) p kind
    by_result =
        subst (λ z. on_condition_packet name (s.member i) z ≡ result (s.member i) z kind) p-eta
          (on_condition_packet-result name (s.member i) p.lamport_time j kind
            (local i li).registered)

    handle-Effects :
        {m : Member} {out : List Delivery}
        → on_condition_packet name (s.member i) p ≡ some (m, out)
        → Effects name n i j p (s.member i) m out
    handle-Effects {m} {out} e =
        subst
          (λ z.
            result (s.member i) z kind ≡ some (m, out) → Effects name n i j z (s.member i) m out)
          p-eta (λ h. result-Effects name n i j p.lamport_time kind distinct lj (local i li) h)
          (sym by_result ∙ e)

    channel : ℕ → ℕ → List Packet
    channel = take_from s.channel j i rest

    channel_same : (x y : ℕ) → (x ≢ j) ⊎ (y ≢ i) → channel x y ≡ s.channel x y
    unfolding channel
    channel_same x y h = ground (arith, h)

    channel_first : channel j i ≡ rest
    unfolding channel
    channel_first = ground arith

    taken_carried : (x y : ℕ) → x < n → y < n → All (IsOurs name x) (channel x y)
    taken_carried x y lx ly = elim (ℕ_discrete j x) [
      | no h ↦ rw (channel_same x y (inl λ e. h (sym e))) (carried x y lx ly)
      | yes ex ↦ elim (ℕ_discrete i y) [
        | no h ↦ rw (channel_same x y (inr λ e. h (sym e))) (carried x y lx ly)
        | yes ey ↦
            subst (λ z. All (IsOurs name z) (channel z y)) ex
              (subst (λ z. All (IsOurs name j) (channel j z)) ey (rw channel_first whole.1))
      ]
    ]

    taken_alone : (x : ℕ) → x < n → channel x x ≡ []
    taken_alone x lx = elim (ℕ_discrete j x) [
      | no h ↦ channel_same x x (inl λ e. h (sym e)) ∙ alone x lx
      | yes e ↦ channel_same x x (inr λ z. distinct (sym z ∙ sym e)) ∙ alone x lx
    ]

    handle-IsMove :
        {m : Member} {out : List Delivery}
        → on_condition_packet name (s.member i) p ≡ some (m, out)
        → IsMove inv i m out channel
    handle-IsMove {m} {out} e =
        let eff = handle-Effects e in
        record {
          new_local = eff.local;
          new_keeps = λ h. keeps i li (sym eff.held ∙ h);
          own = eff.own;
          silent = eff.silent;
          still_carried = taken_carried;
          still_alone = taken_alone;
          asker = λ y ly ne. elim (ℕ_discrete j y) [
            | yes ey ↦
                subst
                  (λ z. Pair name i z m (s.member z) (channel i z ++ sent_to z out) (channel z i))
                  ey
                  (rw (channel_first, channel_same i j (inl distinct))
                    (eff.asker_first (
                      subst (Pair name i j (s.member i) (s.member j) (s.channel i j)) first
                        (pairs i j li lj distinct))))
            | no h ↦
                rw (channel_same i y (inl distinct), channel_same y i (inl λ z. h (sym z)))
                  (eff.asker_rest (λ z. h (sym z)) (pairs i y li ly ne))
          ];
          replier = λ x lx ne. elim (ℕ_discrete j x) [
            | yes ex ↦
                subst
                  (λ z. Pair name z i (s.member z) m (channel z i) (channel i z ++ sent_to z out))
                  ex
                  (rw (channel_first, channel_same i j (inl distinct))
                    (eff.replier_first (
                      subst (λ c. Pair name j i (s.member j) (s.member i) c (s.channel i j)) first
                        (pairs j i lj li (λ z. distinct (sym z))))))
            | no h ↦
                rw (channel_same i x (inl distinct), channel_same x i (inl λ z. h (sym z)))
                  (eff.replier_rest (λ z. h (sym z)) (pairs x i lx li ne))
          ];
          apart = λ x y lx ly ne nx ny.
              rw (channel_same x y (inr ny), channel_same y x (inr nx)) (pairs x y lx ly ne);
        }

-- Every step of the system keeps the invariant.
Step-Inv :
    {name : Bytes} {n : ℕ} {s t : System}
    → n < 2 ^ 31
    → Step name n s t
    → Inv name n s
    → Inv name n t
unfolding channel
Step-Inv small (enter i li free) inv = record {
  local = inv.local;
  keeps = λ x lx h. (let e = inv.keeps x lx h in cc);
  carried = inv.carried;
  alone = inv.alone;
  pairs = inv.pairs;
}
Step-Inv {s} small (leave i o may) inv = record {
  local = inv.local;
  keeps = λ x lx h. absurd (
      may_leave-holds (s.member x).stage
        (subst (λ z. may_leave (s.member z).stage ≡ true) (some_inj i x (sym o ∙ inv.keeps x lx h))
          may)
        h);
  carried = inv.carried;
  alone = inv.alone;
  pairs = inv.pairs;
}
Step-Inv {s} small (act i {m} {out} li a) inv =
    IsMove-Inv inv i m out s.channel (act-IsMove small inv i li a)
Step-Inv {s} small (handle i j {p} {rest} {m} {out} li lj first e) inv =
    IsMove-Inv inv i m out (take_from s.channel j i rest)
      (handle-IsMove small inv i j li lj first e)

pub Reach-Inv : {name : Bytes} {n : ℕ} {s : System} → n < 2 ^ 31 → Reach name n s → Inv name n s
Reach-Inv {name} {n} small start = Inv-start name n
Reach-Inv small (later r st) = Step-Inv small st (Reach-Inv small r)
