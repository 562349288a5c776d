-- ===== src/Monitor/Memory.antt =====
-- The shared variables of one monitor in two processes: src/distributed/DistributedMonitor.h and
-- src/distributed/DistributedMonitorHelper.cpp over src/algorithms/RicartAgrawalaExclusionAlgorithm.h.
pub mod CatchUp
pub mod Sent
pub mod Calm
pub mod Still
pub mod Kept
pub mod Carried
pub mod Steps
pub mod Latest
pub mod Unsaved
use distributed_monitor.Base.{
  ℕ, suc, ◌<◌, ◌≡◌, Bool, true, false, List, [], ◌∷◌, Option, none, some, ◌==◌, if◌then◌else◌, All,
  Bytes,
}
use distributed_monitor.Communication.Packet.{Packet}
use distributed_monitor.Communication.Clock.{Delivery}
use distributed_monitor.Exclusion.System.{
  Process, System, change, update, take_from, taken, Act, act, receive, start_system, Owns,
}
use distributed_monitor.Monitor.Fresh.{saves}
use distributed_monitor.Monitor.Sync.{pack_sync_message, takes_sync, Shared, on_sync}

-- `variables` has the variables of each process, and `written` what was last written in an entry.
-- `unsaved` tells that no SYNC has been sent since.
pub record Memory (V : Type 0) : Type 0 where
  pub system : System
  pub variables : ℕ → V
  pub written : V
  pub unsaved : Bool

module _ {V : Type 0} (shared : Shared V) (m : Bytes) where
  -- The subscription of the monitor `m` and its callback. After an exception nothing is changed.
  unfoldable pub restored : Packet → V → V
  unfolding takes_sync on_sync
  restored packet v = elim (takes_sync m packet) [
    | none ↦ v
    | some taken ↦ if taken then (elim (on_sync shared packet v) [ none ↦ v | some w ↦ w ]) else v
  ]

  -- The receiving thread handles its packet if it has none after the step.
  abbrev pub after_hand : Option Packet → Option Packet → V → V
  after_hand none after v = v
  after_hand (some packet) (some other) v = v
  after_hand (some packet) none v = restored packet v

  -- The SYNC of the end of an entry.
  abbrev pub Saves : V → List Delivery → Type 0
  Saves v out = All (λ d. d.packet.message ≡ pack_sync_message m (shared.save_state v)) out

  abbrev pub set_variables : (ℕ → V) → ℕ → V → ℕ → V
  set_variables f i v j = if i == j then v else f j

  -- The runs of two processes whose monitors begin alike, after a number of steps of the system. An
  -- entry writes and saves while it owns the mutex, and saves before it gives the mutex up.
  pub data Shares (IsValid : V → Type 0) (names : List Bytes) : ℕ → Memory V → Type 0 where
    begins :
        (v : V)
        → IsValid v
        → Shares IsValid names 0 (record {
          system = start_system names 2;
          variables = λ i. v;
          written = v;
          unsaved = false;
        })
    writes :
        {k : ℕ} {x : Memory V} (i : ℕ) (v : V)
        → Shares IsValid names k x
        → i < 2
        → Owns m (x.system.process i)
        → IsValid v
        → Shares IsValid names k
            (record x { variables = set_variables x.variables i v; written = v; unsaved = true })
    acts :
        {k : ℕ} {x : Memory V} (i : ℕ) {p : Process} {out : List Delivery}
        → Shares IsValid names k x
        → i < 2
        → Act 2 (x.system.process i) p out
        → (saves out ≡ true → Owns m (x.system.process i) × Saves (x.variables i) out)
        → (x.unsaved ≡ true → Owns m (x.system.process i) → Owns m p)
        → Shares IsValid names (suc k) (record {
          system = change x.system i p out;
          variables =
              set_variables x.variables i
                (after_hand (x.system.process i).hand p.hand (x.variables i));
          written = x.written;
          unsaved = if saves out then false else x.unsaved;
        })
    receives :
        {k : ℕ} {x : Memory V} (i j : ℕ) {packet : Packet} {rest : List Packet}
        → Shares IsValid names k x
        → i < 2
        → j < 2
        → (x.system.process i).hand ≡ none
        → x.system.channel j i ≡ packet ∷ rest
        → Shares IsValid names (suc k) (record x {
          system = record {
            process = update x.system.process i (taken (x.system.process i) packet);
            channel = take_from x.system.channel j i rest;
          };
        })
