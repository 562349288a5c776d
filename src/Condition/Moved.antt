-- ===== src/Condition/Moved.antt =====
-- The invariant of the processes that share a condition variable, and a process that moves.
use distributed_monitor.Base.{
  ℕ, ◌<◌, ◌≡◌, ◌≢◌, refl, sym, subst, ◌∙◌, true, List, [], ◌++◌, append-nil, none, some, arith,
  ◌==◌, ==_refl, ==_ne, if◌then◌else◌, All, All-append, Bytes, bytes_eq_refl,
}
use native.Mathlib.Decide.{ℕ_discrete}
use distributed_monitor.Base.Names
use distributed_monitor.Base.Assoc
use distributed_monitor.Communication.Packet.{Packet}
use distributed_monitor.Communication.Clock.{init, Delivery}
use distributed_monitor.Exclusion.System.{post}
use distributed_monitor.Exclusion.Network.{sent_to, post_lem}
use distributed_monitor.Condition.System.{Member, System, update, start_member}
use distributed_monitor.Condition.Protocol.{Pair}
use distributed_monitor.Condition.Members.{IsOurs, Local}
use distributed_monitor.Condition.Acts.{holds}

pub record Inv (name : Bytes) (n : ℕ) (s : System) : Type 0 where
  pub local : (i : ℕ) → i < n → Local name n i (s.member i)
  pub keeps : (i : ℕ) → i < n → holds (s.member i).stage ≡ true → s.owner ≡ some i
  pub carried : (a b : ℕ) → a < n → b < n → All (IsOurs name a) (s.channel a b)
  pub alone : (a : ℕ) → a < n → s.channel a a ≡ []
  pub pairs :
      (i j : ℕ)
      → i < n
      → j < n
      → i ≢ j
      → Pair name i j (s.member i) (s.member j) (s.channel i j) (s.channel j i)

pub Inv-start :
    (name : Bytes) (n : ℕ)
    → Inv name n (record { member = start_member name n; channel = λ i j. []; owner = none })
unfolding init Names.contains Assoc.at
Inv-start name n = record {
  local = λ i lt. record {
    rank = refl;
    size = refl;
    others = refl;
    registered = ground (arith, bytes_eq_refl name);
    strangers = refl;
    not_self = refl;
    collected = tt;
  };
  keeps = λ i lt h. cc;
  carried = λ a b la lb. tt;
  alone = λ a la. refl;
  pairs = λ i j li lj ne. record {
    counts = record {
      answered = refl;
      once = omega arith;
      idle = λ h. refl;
      unknown = λ h. refl;
      gone = λ h g. refl;
      done = λ h. refl;
      aim = λ h. absurd (h refl);
    };
    calls_first = tt;
    notes_first = tt;
  };
}

==_of : (x i : ℕ) → x ≡ i → (x == i) ≡ true
==_of x i e = ground (arith, e)

-- Process `i` goes on as `m` and sends `out`, when the channels are as `f` says.
module _ {name : Bytes} {n : ℕ} {s : System} (inv : Inv name n s) (i : ℕ) (m : Member)
    (out : List Delivery) (f : ℕ → ℕ → List Packet) where
  open inv use {local, keeps}

  pub record IsMove : Type 0 where
    pub new_local : Local name n i m
    pub new_keeps : holds m.stage ≡ true → s.owner ≡ some i
    pub own : (b : ℕ) → All (IsOurs name i) (sent_to b out)
    pub silent : sent_to i out ≡ []
    pub still_carried : (a b : ℕ) → a < n → b < n → All (IsOurs name a) (f a b)
    pub still_alone : (a : ℕ) → a < n → f a a ≡ []
    pub asker :
        (y : ℕ) → y < n → i ≢ y → Pair name i y m (s.member y) (f i y ++ sent_to y out) (f y i)
    pub replier :
        (x : ℕ) → x < n → x ≢ i → Pair name x i (s.member x) m (f x i) (f i x ++ sent_to x out)
    pub apart :
        (x y : ℕ)
        → x < n
        → y < n
        → x ≢ y
        → x ≢ i
        → y ≢ i
        → Pair name x y (s.member x) (s.member y) (f x y) (f y x)

  module _ (mv : IsMove) where
    abbrev After : ℕ → ℕ → Type 0
    After x y =
        Pair name x y (update s.member i m x) (update s.member i m y)
          (if x == i then f x y ++ sent_to y out else f x y)
          (if y == i then f y x ++ sent_to x out else f y x)

    moved-Local : (x : ℕ) → x < n → Local name n x (update s.member i m x)
    moved-Local x lx = elim (ℕ_discrete i x) [
      | yes e ↦ subst (λ z. Local name n z (update s.member i m z)) e (rw (==_refl i) mv.new_local)
      | no other ↦ rw (==_ne i x other) (local x lx)
    ]

    moved_keeps : (x : ℕ) → x < n → holds (update s.member i m x).stage ≡ true → s.owner ≡ some x
    moved_keeps x lx = elim (ℕ_discrete i x) [
      | yes e ↦
          subst (λ z. holds (update s.member i m z).stage ≡ true → s.owner ≡ some z) e
            (rw (==_refl i) mv.new_keeps)
      | no other ↦ rw (==_ne i x other) (keeps x lx)
    ]

    moved_carried : (x y : ℕ) → x < n → y < n → All (IsOurs name x) (post f i out x y)
    moved_carried x y lx ly = rw (post_lem i x y out f) (elim (ℕ_discrete x i) [
      | yes e ↦ rw (==_of x i e) (
          All-append (IsOurs name x) (f x y) (sent_to y out) (mv.still_carried x y lx ly)
            (subst (λ z. All (IsOurs name z) (sent_to y out)) (sym e) (mv.own y)))
      | no other ↦ rw (==_ne x i other) (mv.still_carried x y lx ly)
    ])

    moved_alone : (x : ℕ) → x < n → post f i out x x ≡ []
    moved_alone x lx = post_lem i x x out f ∙ elim (ℕ_discrete i x) [
      | yes e ↦
          subst (λ z. (if z == i then f z z ++ sent_to z out else f z z) ≡ []) e
            (rw (==_refl i, mv.silent, append-nil) (mv.still_alone i (omega (arith, e, lx))))
      | no other ↦ rw (==_ne x i (λ e. other (sym e))) (mv.still_alone x lx)
    ]

    moved_asker : (y : ℕ) → y < n → i ≢ y → After i y
    moved_asker y ly ne =
        rw (==_refl i, ==_ne i y ne, ==_ne y i (λ e. ne (sym e))) (mv.asker y ly ne)

    moved_replier : (x : ℕ) → x < n → x ≢ i → After x i
    moved_replier x lx ne =
        rw (==_refl i, ==_ne x i ne, ==_ne i x (λ e. ne (sym e))) (mv.replier x lx ne)

    by_mover : (x y : ℕ) → x < n → y < n → x ≢ y → After x y
    by_mover x y lx ly ne = elim (ℕ_discrete i x) [
      | yes e ↦ subst (λ z. z ≢ y → After z y) e (moved_asker y ly) ne
      | no ix ↦ elim (ℕ_discrete i y) [
        | yes e ↦ subst (λ z. x ≢ z → After x z) e (moved_replier x lx) ne
        | no iy ↦
            rw
              (==_ne i x ix, ==_ne i y iy, ==_ne x i (λ e. ix (sym e)), ==_ne y i (λ e. iy (sym e)))
              (mv.apart x y lx ly ne (λ e. ix (sym e)) (λ e. iy (sym e)))
      ]
    ]

    pub IsMove-Inv : Inv name n (record s { member = update s.member i m; channel = post f i out })
    IsMove-Inv = record {
      local = moved-Local;
      keeps = moved_keeps;
      carried = moved_carried;
      alone = moved_alone;
      pairs = λ x y lx ly ne.
          rw (post_lem i x y out f) (rw (post_lem i y x out f) (by_mover x y lx ly ne));
    }
