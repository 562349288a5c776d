-- ===== src/Exclusion/Invariant.antt =====
-- The invariant holds at the start, and every step of the system keeps it.
use distributed_monitor.Base.{
  ℕ, suc, ◌+◌, ◌^◌, ◌<◌, ◌≡◌, ◌≢◌, ◌⊎◌, refl, sym, subst, inl, inr, true, ◌&&◌, List, ◌∷◌, ◌++◌,
  append-nil, none, arith, ◌==◌, ==_refl, ==_ne, if◌then◌else◌, count, All, All-append, Bool-cases,
  Bytes, bytes_eq, bytes_eq_iff,
}
use native.Mathlib.Decide.{ℕ_discrete}
use distributed_monitor.Base.Assoc
use distributed_monitor.Communication.Packet.{MessageType, mutex_agreement, Packet}
use distributed_monitor.Communication.Clock.{init, Delivery}
use distributed_monitor.Exclusion.Algorithm.{are_agreements_complete}
use distributed_monitor.Exclusion.System.{
  acquiring, Process, System, update, post, take_from, change, Act, taken, Step, act, receive,
  start_system, Reach, start, later,
}
use distributed_monitor.Exclusion.Defs.{weigh, IsFrom, IsAgreement, IsMain, Local, Pair, Inv}
use distributed_monitor.Exclusion.Network.{sent_to, post_lem, All-mono}
use distributed_monitor.Exclusion.Alone.{Act-Local, taken-Local, sent-IsFrom, Local-suc}
use distributed_monitor.Exclusion.Quorum.{quorum}
use distributed_monitor.Exclusion.Asker.{Act-asker, taken-asker}
use distributed_monitor.Exclusion.Replier.{Act-replier, taken-replier}

Inv-start : (names : List Bytes) (n : ℕ) (m : Bytes) → Inv n 0 m (start_system names n)
unfolding init Assoc.at Assoc.find
Inv-start names n m = record {
  local = λ i lt. record {
    rank = refl;
    size = refl;
    others = refl;
    early = omega arith;
    asked = λ name t h. cc;
    main_ok = tt;
    hand_ok = tt;
    stored = λ name. tt;
  };
  carried = λ a b la lb. tt;
  pairs = λ i j li lj ne. record {
    tokens = refl;
    stamps = λ t h. refl;
    seen = λ t h z. cc;
    order = λ t u h g f z. cc;
  };
}

module _ {n k : ℕ} {m : Bytes} {s : System} (small : n < 2 ^ 31) (fits : suc k < 2 ^ 64)
    (inv : Inv n k m s) where
  open inv use {local, carried, pairs}

  -- In a state with all agreements in, each other process has agreed once.
  pub has_agreed :
      (i j : ℕ)
      → i < n
      → j < n
      → i ≢ j
      → (name : Bytes) (ag : List Packet) → (s.process i).main ≡ acquiring name ag
      → are_agreements_complete (s.process i).exclusion ag ≡ true
      → bytes_eq name m ≡ true
      → count (weigh mutex_agreement m j) ag ≡ 1
  has_agreed i j li lj ne name ag e c b =
      let same : name ≡ m = (bytes_eq_iff name m).0 b in
      let main : IsMain n i (s.process i) (acquiring name ag) =
        subst (IsMain n i (s.process i)) e (local i li).main_ok in
      quorum m ag small li lj ne (local i li) (subst (λ z. All (IsAgreement n i z) ag) same main.0)
        (λ o lo no_. ground (arith, (pairs i o li lo no_).tokens, b)) c

  IsFrom-suc : (x y : ℕ) → x < n → y < n → All (IsFrom n x y (suc k)) (s.channel x y)
  IsFrom-suc x y lx ly =
      All-mono (IsFrom n x y k) (IsFrom n x y (suc k)) (s.channel x y) (λ q h. omega arith)
        (carried x y lx ly)

  module _ (i : ℕ) {p : Process} {out : List Delivery} (li : i < n)
      (a : Act n (s.process i) p out) where
    abbrev After : ℕ → ℕ → Type 0
    After x y =
        Pair m x y (update s.process i p x) (update s.process i p y)
          (if x == i then s.channel x y ++ sent_to y out else s.channel x y)
          (if y == i then s.channel y x ++ sent_to x out else s.channel y x)

    act-Local : (x : ℕ) → x < n → Local n x (suc k) (update s.process i p x)
    act-Local x lx = elim (ℕ_discrete i x) [
      | yes e ↦
          subst (λ z. Local n z (suc k) (update s.process i p z)) e
            (rw (==_refl i) (Act-Local li fits (local i li) a).0)
      | no other ↦ rw (==_ne i x other) (Local-suc lx fits (local x lx))
    ]

    act-carried : (x y : ℕ) → x < n → y < n → All (IsFrom n x y (suc k)) (post s.channel i out x y)
    act-carried x y lx ly = rw (post_lem i x y out s.channel) (elim (ℕ_discrete x i) [
      | yes e ↦
          subst
            (λ z.
              All (IsFrom n z y (suc k))
                (if z == i then s.channel z y ++ sent_to y out else s.channel z y))
            (sym e)
            (rw (==_refl i) (
              All-append (IsFrom n i y (suc k)) (s.channel i y) (sent_to y out)
                (IsFrom-suc i y li ly)
                (sent-IsFrom n i y (suc k) out li (Act-Local li fits (local i li) a).1)))
      | no other ↦ rw (==_ne x i other) (IsFrom-suc x y lx ly)
    ])

    act-pairs :
        (x y : ℕ)
        → x < n
        → y < n
        → x ≢ y
        → Pair m x y
            (update s.process i p x)
            (update s.process i p y)
            (post s.channel i out x y)
            (post s.channel i out y x)
    act-pairs x y lx ly ne =
        rw (post_lem i x y out s.channel)
          (rw (post_lem i y x out s.channel) (by_mover x y lx ly ne))
      where
        asker : (y : ℕ) → y < n → i ≢ y → After i y
        asker y ly ne =
            rw (==_refl i, ==_ne i y ne, ==_ne y i (λ e. ne (sym e)))
              (Act-asker fits ne ly (local i li) (pairs i y li ly ne) (has_agreed i y li ly ne) a)

        replier : (x : ℕ) → x < n → x ≢ i → After x i
        replier x lx ne =
            rw (==_refl i, ==_ne x i ne, ==_ne i x (λ e. ne (sym e)))
              (Act-replier fits ne lx (local i li) (pairs x i lx li ne) a)

        by_mover : (x y : ℕ) → x < n → y < n → x ≢ y → After x y
        by_mover x y lx ly ne = elim (ℕ_discrete i x) [
          | yes e ↦ subst (λ z. z ≢ y → After z y) e (asker y ly) ne
          | no ix ↦ elim (ℕ_discrete i y) [
            | yes e ↦ subst (λ z. x ≢ z → After x z) e (replier x lx) ne
            | no iy ↦
                rw
                  (
                    ==_ne i x ix,
                    ==_ne i y iy,
                    ==_ne x i (λ e. ix (sym e)),
                    ==_ne y i (λ e. iy (sym e)),
                  )
                  (pairs x y lx ly ne)
          ]
        ]

    act-Inv : Inv n (suc k) m (change s i p out)
    act-Inv = record { local = act-Local; carried = act-carried; pairs = act-pairs }

  module _ (i j : ℕ) {packet : Packet} {rest : List Packet} (li : i < n) (lj : j < n)
      (free : (s.process i).hand ≡ none) (first : s.channel j i ≡ packet ∷ rest) where
    channel : ℕ → ℕ → List Packet
    channel = take_from s.channel j i rest

    process : ℕ → Process
    process = update s.process i (taken (s.process i) packet)

    whole : All (IsFrom n j i k) (packet ∷ rest)
    whole = subst (All (IsFrom n j i k)) first (carried j i lj li)

    receive-Local : (x : ℕ) → x < n → Local n x (suc k) (process x)
    unfolding process
    receive-Local x lx = elim (ℕ_discrete i x) [
      | yes e ↦
          subst (λ z. Local n z (suc k) (process z)) e
            (rw (==_refl i) (taken-Local li fits (local i li) packet (omega (arith, whole.0))))
      | no other ↦ rw (==_ne i x other) (Local-suc lx fits (local x lx))
    ]

    receive-carried : (x y : ℕ) → x < n → y < n → All (IsFrom n x y (suc k)) (channel x y)
    unfolding channel
    receive-carried x y lx ly = elim (Bool-cases (x == j && y == i)) [
      | inr e ↦ rw e (IsFrom-suc x y lx ly)
      | inl e ↦
          rw e (All-mono (IsFrom n j i k) (IsFrom n x y (suc k)) rest (λ q h. ground arith) whole.1)
    ]

    channel_same : (x y : ℕ) → (x ≢ j) ⊎ (y ≢ i) → channel x y ≡ s.channel x y
    unfolding channel
    channel_same x y h = ground arith

    channel_first : channel j i ≡ rest
    unfolding channel
    channel_first = ground arith

    -- A packet from another process weighs nothing.
    no_weight : (t : MessageType) (y : ℕ) → y ≢ j → weigh t m y packet ≡ 0
    no_weight t y ne = ground (arith, whole.0.0)

    abbrev Next : ℕ → ℕ → Type 0
    Next x y = Pair m x y (process x) (process y) (channel x y) (channel y x)

    back_count :
        (y : ℕ)
        → count (weigh mutex_agreement m y) (s.channel y i)
          ≡ weigh mutex_agreement m y packet + count (weigh mutex_agreement m y) (channel y i)
    back_count y = elim (ℕ_discrete j y) [
      | yes e ↦
          subst
            (λ z.
              count (weigh mutex_agreement m z) (s.channel z i)
              ≡ weigh mutex_agreement m z packet + count (weigh mutex_agreement m z) (channel z i))
            e (rw (channel_first, first))
      | no other ↦
          rw
            (
              channel_same y i (inl λ z. other (sym z)),
              no_weight mutex_agreement y (λ z. other (sym z)),
            )
            (omega arith)
    ]

    receive-asker : (y : ℕ) → y < n → i ≢ y → Next i y
    unfolding process
    receive-asker y ly ne =
        rw (==_refl i, ==_ne i y ne, channel_same i y (inr λ z. ne (sym z)))
          (taken-asker fits ne ly (local i li) (pairs i y li ly ne) packet (channel y i)
            (back_count y) free)

    there_from :
        (x : ℕ)
        → ((w : Packet → ℕ) → count w (s.channel x i) ≡ w packet + count w (channel x i))
          ⊎ ((channel x i ≡ s.channel x i) × (packet.source ≢ x))
    there_from x = elim (ℕ_discrete j x) [
      | yes e ↦ inl (λ w.
          subst (λ z. count w (s.channel z i) ≡ w packet + count w (channel z i)) e
            (rw (channel_first, first)))
      | no other ↦
          inr (channel_same x i (inl λ z. other (sym z)), λ z. other (omega (arith, whole.0.0)))
    ]

    receive-replier : (x : ℕ) → x < n → x ≢ i → Next x i
    unfolding process
    receive-replier x lx ne =
        rw (==_refl i, ==_ne i x (λ z. ne (sym z)), channel_same i x (inr ne))
          (subst (Pair m x i (s.process x) (taken (s.process i) packet) (channel x i))
            (append-nil (s.channel i x))
            (taken-replier fits ne lx (local i li) (pairs x i lx li ne) packet (channel x i)
              (there_from x) (omega (arith, whole.0)) free))

    receive-pairs : (x y : ℕ) → x < n → y < n → x ≢ y → Next x y
    unfolding process
    receive-pairs x y lx ly ne = elim (ℕ_discrete i x) [
      | yes e ↦ subst (λ z. z ≢ y → Next z y) e (receive-asker y ly) ne
      | no ix ↦ elim (ℕ_discrete i y) [
        | yes e ↦ subst (λ z. x ≢ z → Next x z) e (receive-replier x lx) ne
        | no iy ↦
            rw
              (
                ==_ne i x ix,
                ==_ne i y iy,
                channel_same x y (inr λ z. iy (sym z)),
                channel_same y x (inr λ z. ix (sym z)),
              )
              (pairs x y lx ly ne)
      ]
    ]

    receive-Inv : Inv n (suc k) m (record { process = process; channel = channel })
    receive-Inv = record { local = receive-Local; carried = receive-carried; pairs = receive-pairs }

-- Every step of the system keeps the invariant, as long as no clock can wrap.
pub Step-Inv :
    {n k : ℕ} {m : Bytes} {s t : System}
    → n < 2 ^ 31
    → suc k < 2 ^ 64
    → Step n s t
    → Inv n k m s
    → Inv n (suc k) m t
Step-Inv small fits (act i li a) inv = act-Inv small fits inv i li a
Step-Inv {s} small fits (receive i j li lj free first) inv =
    unfold process channel in receive-Inv small fits inv i j li lj free first

pub Reach-Inv :
    {names : List Bytes} {n k : ℕ} {s : System} (m : Bytes)
    → n < 2 ^ 31
    → k < 2 ^ 64
    → Reach names n k s
    → Inv n k m s
Reach-Inv {names} {n} m small fits start = Inv-start names n m
Reach-Inv m small fits (later r st) = Step-Inv small fits st (Reach-Inv m small (omega arith) r)
