-- ===== src/Monitor/Memory/Kept.antt =====
-- What holds in the runs of two processes: how the saved states on the way and the variables of the
-- processes are related to what was last written.
use distributed_monitor.Base.{
  ℕ, ◌-◌, ◌<◌, ◌^◌, ◌≡◌, ◌≢◌, sym, subst, ◌∙◌, inl, inr, true, false, List, some, arith, All,
  Bool-cases, Bytes,
}
use distributed_monitor.Communication.Packet.{sync, type_eq, Packet}
use distributed_monitor.Exclusion.System.{Owns}
use distributed_monitor.Exclusion.Safety.{mutual_exclusion}
use distributed_monitor.Monitor.Fresh.{Run, begins, acts, receives, Run-Reach}
use distributed_monitor.Monitor.Sync.{pack_sync_message, Shared}
use distributed_monitor.Monitor.Memory.{Memory, Shares}
use distributed_monitor.Monitor.Memory.Calm.{owner_catch_up}
use distributed_monitor.Monitor.Memory.CatchUp.{catch_up}

-- Of two processes, the one that is not `i`.
other_one : (i j x : ℕ) → i < 2 → j < 2 → x < 2 → i ≢ j → i ≢ x → j ≡ x
other_one i j x li lj lx ne nx = omega (arith, ne, nx)

module _ {V : Type 0} (shared : Shared V) (m : Bytes) (IsValid : V → Type 0) where
  -- A SYNC carries valid variables.
  abbrev pub IsSaved : Packet → Type 0
  IsSaved p =
      type_eq p.message_type sync ≡ true
      → (v : V) × IsValid v × (p.message ≡ pack_sync_message m (shared.save_state v))

  pub record Agrees (x : Memory V) : Type 0 where
    pub valid : (i : ℕ) → i < 2 → IsValid (x.variables i)
    pub on_the_way : (j i : ℕ) → j < 2 → i < 2 → All IsSaved (x.system.channel j i)
    pub held :
        (i : ℕ) (packet : Packet) → i < 2 → (x.system.process i).hand ≡ some packet → IsSaved packet
    pub saved :
        (i j : ℕ)
        → i < 2
        → j < 2
        → i ≢ j
        → x.unsaved ≡ false
        → catch_up shared m (x.variables i) (x.system.process i).hand (x.system.channel j i)
          ≡ x.written
    pub pending :
        x.unsaved ≡ true
        → (i : ℕ) × (i < 2) × Owns m (x.system.process i) × (x.variables i ≡ x.written)

  pub Shares-Run :
      {names : List Bytes} {k : ℕ} {x : Memory V}
      → Shares shared m IsValid names k x
      → Run names 2 m k x.system
  Shares-Run (Shares.begins v h) = begins
  Shares-Run (Shares.writes i v r li o h) = Shares-Run r
  Shares-Run (Shares.acts i r li a sends keeps) = acts i (Shares-Run r) li a (λ e. (sends e).0)
  Shares-Run (Shares.receives i j r li lj free first) = receives i j (Shares-Run r) li lj free first

  module _ {names : List Bytes} {k : ℕ} {x : Memory V} (fits : k < 2 ^ 64)
      (r : Shares shared m IsValid names k x) (agrees : Agrees x) where
    -- The variables of the owner are what was last written.
    pub owner-written : (i : ℕ) → i < 2 → Owns m (x.system.process i) → x.variables i ≡ x.written
    owner-written i li o = elim (Bool-cases x.unsaved) [
      | inl e ↦
          let (y, ly, oy, same) = agrees.pending e in
          let one =
            mutual_exclusion {m = m} (omega arith) fits (Run-Reach (Shares-Run r)) y i ly li oy o in
          subst (λ z. x.variables z ≡ x.written) one same
      | inr e ↦
          let j : ℕ = 1 - i in
          let ne : i ≢ j = λ z. absurd (omega (arith, z, li)) in
          sym (owner_catch_up fits (Shares-Run r) shared i j (x.variables i) li (omega arith) ne o)
          ∙ agrees.saved i j li (omega arith) ne e
    ]
