-- ===== src/Monitor/Fresh/Current.antt =====
-- The saved states on the way to the owner of the mutex.
use distributed_monitor.Base.{
  ℕ, suc, ◌^◌, ◌<◌, ◌≡◌, ◌≢◌, ◌⊎◌, refl, sym, subst, ◌∙◌, true, List, ◌∷◌, ◌++◌, none, arith, ◌==◌,
  ==_refl, ==_ne, if◌then◌else◌, count, All, Bytes, Bool-cases, inl, inr,
}
use native.Mathlib.Decide.{ℕ_discrete}
use distributed_monitor.Communication.Packet.{Packet}
use distributed_monitor.Communication.Clock.{Delivery}
use distributed_monitor.Exclusion.System.{
  Process, System, update, take_from, change, taken, Act, Owns,
}
use distributed_monitor.Exclusion.Defs.{in_hand, IsFrom, Inv}
use distributed_monitor.Exclusion.Network.{sent_to, post_lem}
use distributed_monitor.Exclusion.Invariant.{Reach-Inv, has_agreed}
use distributed_monitor.Exclusion.Safety.{mutual_exclusion}
use distributed_monitor.Monitor.Fresh.{
  saves, Run, begins, acts, receives, Run-Reach, synced, IsFresh,
}
use distributed_monitor.Monitor.Fresh.Owner.{owner_ungranted}
use distributed_monitor.Monitor.Fresh.Steps.{
  IsFresh_sent, Act-IsFresh, taken-IsFresh, taken_other-IsFresh, synced-saves, Act-saves,
}

abbrev Current : ℕ → Bytes → System → Type 0
Current n m s = (i j : ℕ) → i < n → j < n → i ≢ j → IsFresh m j (s.process i) (s.channel j i)

module _ {names : List Bytes} {n : ℕ} {m : Bytes} {k : ℕ} {s : System} (small : n < 2 ^ 31)
    (fits : suc k < 2 ^ 64) (r : Run names n m k s) (cur : Current n m s) where
  inv : Inv n k m s
  inv = Reach-Inv m small (omega arith) (Run-Reach r)

  module _ (x : ℕ) {p : Process} {out : List Delivery} (lx : x < n) (a : Act n (s.process x) p out)
      (owner : saves out ≡ true → Owns m (s.process x)) where
    sender : (i : ℕ) → i < n → i ≢ x → IsFresh m x (s.process i) (s.channel x i ++ sent_to i out)
    sender i li ne = elim (Bool-cases (saves out)) [
      | inr e ↦ IsFresh_sent (cur i x li lx ne) (sent_to i out) (inl (synced-saves x i out e))
      | inl e ↦ IsFresh_sent (cur i x li lx ne) (sent_to i out) (
          inr (
            Act-saves m x i a e,
            owner_ungranted i x inv li lx ne (owner e),
            λ o.
                absurd
                  (ne (mutual_exclusion small (omega arith) (Run-Reach r) i x li lx o (owner e))),
          ))
    ]

    mover : (j : ℕ) → j < n → x ≢ j → IsFresh m j p (s.channel j x)
    mover j lj ne = Act-IsFresh (cur x j lx lj ne) (has_agreed small fits inv x j lx lj ne) a

    acts-Current : Current n m (change s x p out)
    acts-Current i j li lj ne = rw (post_lem x j i out s.channel) (elim (ℕ_discrete x j) [
      | yes e ↦
          subst
            (λ z.
              IsFresh m z (update s.process x p i)
                (if z == x then s.channel z i ++ sent_to i out else s.channel z i))
            e (rw (==_refl x, ==_ne x i (λ h. ne (sym h ∙ e))) (sender i li (λ h. ne (h ∙ e))))
      | no nj ↦ rw (==_ne j x (λ h. nj (sym h))) (elim (ℕ_discrete x i) [
        | yes e ↦
            subst (λ z. IsFresh m j (update s.process x p z) (s.channel j z)) e
              (rw (==_refl x) (mover j lj nj))
        | no ni ↦ rw (==_ne x i ni) (cur i j li lj ne)
      ])
    ])

  module _ (x y : ℕ) {packet : Packet} {rest : List Packet} (lx : x < n) (ly : y < n)
      (free : (s.process x).hand ≡ none) (first : s.channel y x ≡ packet ∷ rest) where
    channel : ℕ → ℕ → List Packet
    channel = take_from s.channel y x rest

    channel_same : (a b : ℕ) → (a ≢ y) ⊎ (b ≢ x) → channel a b ≡ s.channel a b
    unfolding channel
    channel_same a b h = ground (arith, h)

    channel_first : channel y x ≡ rest
    unfolding channel
    channel_first = ground arith

    from_y : packet.source ≡ y
    from_y = (subst (All (IsFrom n y x k)) first (inv.carried y x ly lx)).0.0

    taker : (j : ℕ) → j < n → x ≢ j → IsFresh m j (taken (s.process x) packet) (channel j x)
    taker j lj ne = elim (ℕ_discrete y j) [
      | yes e ↦
          subst (λ z. IsFresh m z (taken (s.process x) packet) (channel z x)) e
            (rw channel_first (
              taken-IsFresh
                (subst (IsFresh m y (s.process x)) first (cur x y lx ly (λ h. ne (h ∙ e)))) free))
      | no h ↦
          rw (channel_same j x (inl λ e. h (sym e)))
            (taken_other-IsFresh (cur x j lx lj ne) free (λ e. h (sym from_y ∙ e)))
    ]

    receives-Current :
        Current n m
          (record { process = update s.process x (taken (s.process x) packet); channel = channel })
    receives-Current i j li lj ne = elim (ℕ_discrete x i) [
      | yes e ↦
          subst
            (λ z.
              z ≢ j → IsFresh m j (update s.process x (taken (s.process x) packet) z) (channel j z))
            e (λ h. rw (==_refl x) (taker j lj h)) ne
      | no ni ↦ rw (==_ne x i ni, channel_same j i (inr λ e. ni (sym e))) (cur i j li lj ne)
    ]

Run-Current :
    {names : List Bytes} {n : ℕ} {m : Bytes} {k : ℕ} {s : System}
    → n < 2 ^ 31
    → k < 2 ^ 64
    → Run names n m k s
    → Current n m s
unfolding channel
Run-Current small fits begins = λ i j li lj ne. record {
  behind = tt;
  held = λ h. absurd (h refl);
  agreed = λ h. absurd (h refl);
  owned = λ o. refl;
}
Run-Current small fits (acts x r lx a o) =
    acts-Current small fits r (Run-Current small (omega arith) r) x lx a o
Run-Current small fits (receives x y r lx ly free first) =
    receives-Current small fits r (Run-Current small (omega arith) r) x y lx ly free first

-- Nothing is on the way: in every state that `n` processes, fewer than 2 ^ 31, reach in fewer than 2 ^ 64 steps in
-- which a SYNC is sent only by the owner of the mutex, no SYNC of another process is on the way to the
-- owner or in the hand of its receiving thread: each has been handled.
pub owner_none_on_the_way :
    {names : List Bytes} {n : ℕ} {m : Bytes} {k : ℕ} {s : System}
    → n < 2 ^ 31
    → k < 2 ^ 64
    → Run names n m k s
    → (i j : ℕ) → i < n
    → j < n
    → i ≢ j
    → Owns m (s.process i)
    → (count (synced j) (s.channel j i) ≡ 0) × (in_hand (synced j) (s.process i).hand ≡ 0)
owner_none_on_the_way small fits r i j li lj ne o =
    let clear = (Run-Current small fits r i j li lj ne).owned o in
    (omega (arith, clear), omega (arith, clear))
