-- ===== src/Monitor/Memory/Still.antt =====
-- A step that sends no SYNC brings no process further than it gets anyhow.
use distributed_monitor.Base.{
  ℕ, ◌<◌, ◌≡◌, ◌≢◌, refl, sym, subst, ◌∙◌, false, List, ◌∷◌, ◌++◌, none, some, arith, ap, ◌==◌,
  if◌then◌else◌, All, ==_refl, ==_ne, Bytes,
}
use native.Mathlib.Decide.{ℕ_discrete}
use distributed_monitor.Communication.Packet.{Packet}
use distributed_monitor.Communication.Clock.{Delivery}
use distributed_monitor.Exclusion.System.{Process, System, change, update, take_from, taken, Act}
use distributed_monitor.Exclusion.Defs.{IsFrom, Inv}
use distributed_monitor.Exclusion.Network.{sent_to, post_lem}
use distributed_monitor.Monitor.Fresh.{saves}
use distributed_monitor.Monitor.Sync.{Shared}
use distributed_monitor.Monitor.Memory.{after_hand, set_variables}
use distributed_monitor.Monitor.Memory.CatchUp.{
  Act-hand, catch_up, replay-IsOther, catch_up-after_hand, catch_up-append,
}
use distributed_monitor.Monitor.Memory.Sent.{sent_to-IsOther}

-- Of two processes, the one that is not `y`.
pub the_other : (i y j : ℕ) → i < 2 → y < 2 → j < 2 → i ≢ y → y ≢ j → i ≡ j
the_other i y j li ly lj ne nj = omega (arith, ne, nj)

module _ {V : Type 0} (shared : Shared V) (m : Bytes) {k : ℕ} {s : System} (inv : Inv 2 k m s)
    (variables : ℕ → V) where
  -- What process `y` becomes by what is on the way to it from `j`.
  abbrev pub caught_up : ℕ → ℕ → V
  caught_up y j = catch_up shared m (variables y) (s.process y).hand (s.channel j y)

  -- After a step of process `i`, by whether `i` is the receiver or the sender.
  module _ (i : ℕ) (p : Process) (out : List Delivery) (li : i < 2) (after : V) (goal : ℕ → ℕ → V)
      (mover : (j : ℕ) → j < 2 → i ≢ j → catch_up shared m after p.hand (s.channel j i) ≡ goal i j)
      (other : (y : ℕ)
        → y < 2
        → i ≢ y
        → catch_up shared m (variables y) (s.process y).hand (s.channel i y ++ sent_to y out)
          ≡ goal y i) where
    pub change-each :
        (y j : ℕ)
        → y < 2
        → j < 2
        → y ≢ j
        → catch_up shared m
            (set_variables shared m variables i after y)
            (update s.process i p y).hand
            ((change s i p out).channel j y)
          ≡ goal y j
    change-each y j ly lj ne = rw (post_lem i j y out s.channel) (elim (ℕ_discrete i y) [
      | yes e ↦
          subst
            (λ z.
              catch_up shared m (set_variables shared m variables i after z)
                (update s.process i p z).hand
                (if j == i then s.channel j z ++ sent_to z out else s.channel j z)
              ≡ goal z j)
            e
            (rw (==_refl i, ==_ne j i (λ z. ne (sym e ∙ sym z))) (mover j lj (λ z. ne (sym e ∙ z))))
      | no nj ↦
          subst
            (λ z.
              catch_up shared m (set_variables shared m variables i after y)
                (update s.process i p y).hand
                (if z == i then s.channel z y ++ sent_to y out else s.channel z y)
              ≡ goal y z)
            (the_other i y j li ly lj nj ne) (rw (==_refl i, ==_ne i y nj) (other y ly nj))
    ])

  module _ (i : ℕ) {p : Process} {out : List Delivery} (li : i < 2) (a : Act 2 (s.process i) p out)
      (silent : saves out ≡ false) where
    pub acts-caught_up :
        (y j : ℕ)
        → y < 2
        → j < 2
        → y ≢ j
        → catch_up shared m
            (set_variables shared m variables i
              (after_hand shared m (s.process i).hand p.hand (variables i))
              y)
            (update s.process i p y).hand
            ((change s i p out).channel j y)
          ≡ caught_up y j
    acts-caught_up =
        change-each i p out li (after_hand shared m (s.process i).hand p.hand (variables i))
          caught_up
          (λ j lj ne.
            catch_up-after_hand shared m (variables i) (s.process i).hand p.hand (s.channel j i)
              (Act-hand a))
          (λ y ly ne.
            catch_up-append shared m (variables y) (s.process y).hand (s.channel i y)
              (sent_to y out)
            ∙ replay-IsOther shared m (sent_to y out) (caught_up y i)
                (sent_to-IsOther y out silent))

  module _ (i j : ℕ) {packet : Packet} {rest : List Packet} (li : i < 2) (lj : j < 2)
      (free : (s.process i).hand ≡ none) (first : s.channel j i ≡ packet ∷ rest) where
    -- No process sends to itself.
    sender-ne : i ≢ j
    sender-ne e =
        let from = subst (All (IsFrom 2 j i k)) first (inv.carried j i lj li) in
        from.0.1.1 (from.0.0 ∙ sym e)

    others_kept : (b y : ℕ) → i ≢ y → take_from s.channel j i rest b y ≡ s.channel b y
    others_kept b y ne = ground arith

    hand_taken : (update s.process i (taken (s.process i) packet) i).hand ≡ some packet
    hand_taken = rw (==_refl i)

    one_taken :
        catch_up shared m (variables i) (some packet) (take_from s.channel j i rest j i)
        ≡ caught_up i j
    one_taken = rw (==_refl j, ==_refl i, free, first) refl

    pub receives-caught_up :
        (y b : ℕ)
        → y < 2
        → b < 2
        → y ≢ b
        → catch_up shared m
            (variables y)
            (update s.process i (taken (s.process i) packet) y).hand
            (take_from s.channel j i rest b y)
          ≡ caught_up y b
    receives-caught_up y b ly lb ne = elim (ℕ_discrete i y) [
      | no nj ↦
          rw (==_ne i y nj)
            (ap (catch_up shared m (variables y) (s.process y).hand) (others_kept b y nj))
      | yes e ↦
          subst
            (λ z.
              catch_up shared m (variables z)
                (update s.process i (taken (s.process i) packet) z).hand
                (take_from s.channel j i rest b z)
              ≡ caught_up z b)
            e
            (subst
              (λ h.
                catch_up shared m (variables i) h (take_from s.channel j i rest b i)
                ≡ caught_up i b)
              (sym hand_taken)
              (subst
                (λ z.
                  catch_up shared m (variables i) (some packet) (take_from s.channel j i rest z i)
                  ≡ caught_up i z)
                (the_other j i b lj li lb (λ z. sender-ne (sym z)) (λ z. ne (sym e ∙ z)))
                one_taken))
    ]
