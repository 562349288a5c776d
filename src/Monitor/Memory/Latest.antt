-- ===== src/Monitor/Memory/Latest.antt =====
-- The variables of the owner of the mutex, in two processes.
use distributed_monitor.Base.{
  ℕ, suc, ◌≤◌, ◌<◌, ◌^◌, ◌≡◌, ◌≢◌, refl, sym, subst, ◌∙◌, inl, inr, true, false, List, ◌∷◌, none,
  some, arith, some_inj, ◌==◌, ◌&&◌, length, All, ==_refl, ==_ne, Bool-cases, Bytes,
}
use native.Mathlib.Decide.{ℕ_discrete}
use distributed_monitor.Communication.Packet.{Packet}
use distributed_monitor.Exclusion.System.{update, take_from, taken, Owns}
use distributed_monitor.Monitor.Sync.{Shared}
use distributed_monitor.Monitor.Memory.{Memory, Shares}
use distributed_monitor.Monitor.Memory.CatchUp.{catch_up}
use distributed_monitor.Monitor.Memory.Still.{receives-caught_up}
use distributed_monitor.Monitor.Memory.Calm.{two_inv}
use distributed_monitor.Monitor.Memory.Kept.{IsSaved, Agrees, Shares-Run, owner-written}
use distributed_monitor.Monitor.Memory.Steps.{writes-Agrees, acts-Agrees}

module _ {V : Type 0} (shared : Shared V) (m : Bytes) (IsValid : V → Type 0) where
  module _ {names : List Bytes} {k : ℕ} {x : Memory V} (fits : k < 2 ^ 64)
      (r : Shares shared m IsValid names k x) (agrees : Agrees shared m IsValid x) (i j : ℕ)
      {packet : Packet} {rest : List Packet} (li : i < 2) (lj : j < 2)
      (free : (x.system.process i).hand ≡ none) (first : x.system.channel j i ≡ packet ∷ rest) where
    receives-on_the_way :
        (b y : ℕ)
        → b < 2
        → y < 2
        → All (IsSaved shared m IsValid) (take_from x.system.channel j i rest b y)
    receives-on_the_way b y lb ly = elim (Bool-cases (b == j && y == i)) [
      | inr e ↦ rw e (agrees.on_the_way b y lb ly)
      | inl e ↦ rw e (subst (All (IsSaved shared m IsValid)) first (agrees.on_the_way j i lj li)).1
    ]

    receives-saved :
        (y b : ℕ)
        → y < 2
        → b < 2
        → y ≢ b
        → x.unsaved ≡ false
        → catch_up shared m
            (x.variables y)
            (update x.system.process i (taken (x.system.process i) packet) y).hand
            (take_from x.system.channel j i rest b y)
          ≡ x.written
    receives-saved y b ly lb ne u =
        receives-caught_up shared m (two_inv fits (Shares-Run shared m IsValid r)) x.variables i j
          li lj free first y b ly lb ne
        ∙ agrees.saved y b ly lb ne u

    receives-held :
        (y : ℕ) (p : Packet)
        → y < 2
        → (update x.system.process i (taken (x.system.process i) packet) y).hand ≡ some p
        → IsSaved shared m IsValid p
    receives-held y p ly h = elim (Bool-cases (i == y)) [
      | inr e ↦ agrees.held y p ly (rw e at h)
      | inl e ↦
          subst (IsSaved shared m IsValid) (some_inj packet p (rw e at h))
            (subst (All (IsSaved shared m IsValid)) first (agrees.on_the_way j i lj li)).0
    ]

    -- To take a packet changes who owns nothing.
    receives-pending :
        x.unsaved ≡ true
        → (y : ℕ) × (y < 2)
          × Owns m (update x.system.process i (taken (x.system.process i) packet) y)
          × (x.variables y ≡ x.written)
    receives-pending u =
        let (y, ly, o, same) = agrees.pending u in
        elim (ℕ_discrete i y) [
          | no ne ↦ (y, ly, rw (==_ne i y ne) o, same)
          | yes e ↦
              let own : Owns m (x.system.process i) =
                subst (λ z. Owns m (x.system.process z)) (sym e) o in
              (
                i,
                li,
                rw (==_refl i)
                    (record { stamp = own.stamp; queued = own.queued; settled = own.settled }),
                subst (λ z. x.variables z ≡ x.written) (sym e) same,
              )
        ]

    receives-Agrees : Agrees shared m IsValid (record x {
      system = record {
        process = update x.system.process i (taken (x.system.process i) packet);
        channel = take_from x.system.channel j i rest;
      };
    })
    receives-Agrees = record {
      valid = agrees.valid;
      on_the_way = receives-on_the_way;
      held = receives-held;
      saved = receives-saved;
      pending = receives-pending;
    }

  module _ (short : length m ≤ 127)
      (law : (v w : V)
        → IsValid v
        → IsValid w
        → shared.restore_state (shared.save_state v) w ≡ v) where
    below : {k : ℕ} → suc k < 2 ^ 64 → k < 2 ^ 64
    below h = omega arith

    pub Shares-Agrees :
        {names : List Bytes} {k : ℕ} {x : Memory V}
        → k < 2 ^ 64
        → Shares shared m IsValid names k x
        → Agrees shared m IsValid x
    Shares-Agrees fits (Shares.begins v h) = record {
      valid = λ i li. h;
      on_the_way = λ j i lj li. tt;
      held = λ i packet li e. absurd (cc);
      saved = λ i j li lj ne u. refl;
      pending = λ u. absurd (cc);
    }
    Shares-Agrees fits (Shares.writes i v r li o h) =
        writes-Agrees shared m IsValid short law fits r (Shares-Agrees fits r) i v li o h
    Shares-Agrees fits (Shares.acts i r li a sends keeps) =
        let before = below fits in
        acts-Agrees shared m IsValid short law before r (Shares-Agrees before r) i li a sends keeps
    Shares-Agrees fits (Shares.receives i j r li lj free first) =
        let before = below fits in
        receives-Agrees before r (Shares-Agrees before r) i j li lj free first

    -- What an entry sees: in a run of two processes whose monitors begin alike, in fewer than 2 ^ 64
    -- steps, in which only the owner of the mutex writes, only it sends a SYNC, which carries its
    -- variables, and it sends one between its last write and the release, the variables of the owner
    -- are what was last written, by whichever process. The name has at most 127 bytes, and what one
    -- valid set of variables has saved, another restores.
    pub owner-latest :
        {names : List Bytes} {k : ℕ} {x : Memory V}
        → k < 2 ^ 64
        → Shares shared m IsValid names k x
        → (i : ℕ) → i < 2
        → Owns m (x.system.process i)
        → x.variables i ≡ x.written
    owner-latest fits r i li o = owner-written shared m IsValid fits r (Shares-Agrees fits r) i li o
