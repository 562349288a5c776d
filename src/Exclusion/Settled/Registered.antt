-- ===== src/Exclusion/Settled/Registered.antt =====
-- That the mutexes that processes wait for are registered, and that the receiving threads then accept
-- what they hold.
use distributed_monitor.Base.{
  ℕ, ◌^◌, ◌<◌, ◌≡◌, ◌≢◌, refl, sym, subst, inl, inr, true, false, List, [], none, some, arith, ◌==◌,
  Bool-cases, Bytes, bytes_eq, bytes_eq_iff, bytes_eq_refl,
}
use distributed_monitor.Base.Names
use distributed_monitor.Communication.Packet.{mutex_request, type_eq, Packet}
use distributed_monitor.Communication.Clock.{Delivery}
use distributed_monitor.Exclusion.Algorithm.{send_agreement}
use distributed_monitor.Exclusion.System.{
  Main, running, acquiring, releasing, Process, System, Act, acquire, acquired, release, answer,
  released, handled, other_send, Step, act, receive, Reach, is_other, on_packet,
}
use distributed_monitor.Exclusion.Defs.{wants, IsHand, IsFor}
use distributed_monitor.Exclusion.Handler.{Outcome, skip, grant, delay, collect, on_packet-Outcome}
use distributed_monitor.Exclusion.Invariant.{Reach-Inv}
use distributed_monitor.Exclusion.Handled.{on_packet-total}
use distributed_monitor.Exclusion.Settled.{is_call, makes_call, Run, begin, next}
use distributed_monitor.Exclusion.Settled.Search.{Accepts}

-- A process that waits, waits for a mutex that is registered.
abbrev pub IsRegistered : List Bytes → Process → Type 0
IsRegistered names p =
    (name : Bytes) (agreements : List Packet)
    → p.main ≡ acquiring name agreements
    → Names.contains names name ≡ true

abbrev pub AreRegistered : List Bytes → ℕ → System → Type 0
AreRegistered names n s = (i : ℕ) → i < n → IsRegistered names (s.process i)

module _ {names : List Bytes} {n k : ℕ} {s : System} (small : n < 2 ^ 31) (fits : k < 2 ^ 64)
    (r : Reach names n k s) (registered : AreRegistered names n s) where
  wanted_name :
      (m : Bytes) (p : Process) (main : Main)
      → p.main ≡ main
      → IsRegistered names p
      → wants m main ≢ 0
      → Names.contains names m ≡ true
  wanted_name m p running e h w = absurd (w refl)
  wanted_name m p (releasing name rest) e h w = absurd (w refl)
  wanted_name m p (acquiring name ag) e h w = elim (Bool-cases (bytes_eq name m)) [
    | inl t ↦ subst (λ z. Names.contains names z ≡ true) ((bytes_eq_iff name m).0 t) (h name ag e)
    | inr t ↦ absurd (w (rw t))
  ]

  someone_wants :
      (i : ℕ) (packet : Packet)
      → i < n
      → (s.process i).hand ≡ some packet
      → is_other packet ≡ false
      → (j : ℕ) × (j < n) × (wants packet.message (s.process j).main ≢ 0)
  someone_wants i packet li e o =
      let inv = Reach-Inv packet.message small fits r in
      let held : IsFor n i k packet = subst (IsHand n i k) e (inv.local i li).hand_ok in
      elim (Bool-cases (type_eq packet.message_type mutex_request)) [
        | inl t ↦ (
          packet.source,
          held.0,
          ground (
            arith,
            bytes_eq_refl packet.message,
            (inv.pairs packet.source i held.0 li held.1).tokens,
          ),
        )
        | inr t ↦ (
          i,
          li,
          ground (
            arith,
            bytes_eq_refl packet.message,
            (inv.pairs i packet.source li held.0 (λ z. held.1 (sym z))).tokens,
          ),
        )
      ]

  -- A packet of the algorithm that is held is about a mutex that some process waits for.
  pub accepts : (i : ℕ) → i < n → Accepts (s.process i)
  unfolding on_packet
  accepts i li packet e = elim (Bool-cases (is_other packet)) [
    | inl o ↦ ((record (s.process i) { hand = none }, []), rw o)
    | inr o ↦
        let (j, lj, w) = someone_wants i packet li e o in
        on_packet-total small fits r i li e
          (wanted_name packet.message (s.process j) (s.process j).main refl (registered j lj) w)
  ]

Outcome-IsRegistered :
    (names : List Bytes) {p : Process} {packet : Packet} {p' : Process} {out : List Delivery}
    → Outcome p packet p' out
    → IsRegistered names p
    → IsRegistered names p'
unfolding send_agreement
Outcome-IsRegistered names (skip o) h = h
Outcome-IsRegistered names (grant t c) h = h
Outcome-IsRegistered names (delay t c) h = h
Outcome-IsRegistered names (collect {name = m} {agreements = before} e t) h =
    λ name ag a. ground (arith, h m before e)

Act-IsRegistered :
    (names : List Bytes) {n : ℕ} {p p' : Process} {out : List Delivery} (a : Act n p p' out)
    → is_call a ≡ false
    → IsRegistered names p
    → IsRegistered names p'
Act-IsRegistered names (acquire name r e) f h = absurd (cc)
Act-IsRegistered names (acquired e c) f h = λ name ag a. ground (arith, h name ag)
Act-IsRegistered names (release name r e) f h = absurd (cc)
Act-IsRegistered names (answer e) f h = λ name ag a. ground (arith, h name ag)
Act-IsRegistered names (released e) f h = λ name ag a. ground (arith, h name ag)
Act-IsRegistered names {p = p} (handled {packet} g e r) f h =
    Outcome-IsRegistered names (on_packet-Outcome p packet r) h
Act-IsRegistered names (other_send t message recipient lt ne a b) f h = absurd (cc)

Step-AreRegistered :
    (names : List Bytes) {n : ℕ} {s t : System} (st : Step n s t)
    → makes_call st ≡ false
    → AreRegistered names n s
    → AreRegistered names n t
Step-AreRegistered names (act i li a) f h x lx = elim (Bool-cases (i == x)) [
  | inl e ↦ rw e (Act-IsRegistered names a f (h i li))
  | inr e ↦ rw e (h x lx)
]
Step-AreRegistered names (receive i j li lj free c) f h x lx = elim (Bool-cases (i == x)) [
  | inl e ↦ rw e (h i li)
  | inr e ↦ rw e (h x lx)
]

pub Run-AreRegistered :
    (names : List Bytes) {n : ℕ} {s : System} {l : ℕ} {t : System}
    → Run n s l t
    → AreRegistered names n s
    → AreRegistered names n t
Run-AreRegistered names begin h = h
Run-AreRegistered names (next r st f) h =
    Step-AreRegistered names st f (Run-AreRegistered names r h)
