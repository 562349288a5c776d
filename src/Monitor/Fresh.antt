-- ===== src/Monitor/Fresh.antt =====
-- The shared variables and the mutex of one monitor: a process sends its SYNC while it owns the mutex,
-- as the end of an entry does.
pub mod Owner
pub mod Steps
pub mod Current
use distributed_monitor.Base.{
  ℕ, suc, ◌+◌, ◌<◌, ◌≡◌, ◌≢◌, Bool, true, List, ◌∷◌, none, ◌==◌, if◌then◌else◌, count, any, Bytes,
}
use distributed_monitor.Communication.Packet.{mutex_agreement, sync, type_eq, Packet}
use distributed_monitor.Communication.Clock.{Delivery}
use distributed_monitor.Exclusion.System.{
  Process, System, change, update, take_from, taken, Act, act, receive, Reach, start, later,
  start_system, Owns,
}
use distributed_monitor.Exclusion.Defs.{weigh, in_hand, collected}
use distributed_monitor.Condition.Protocol.{IsBehind}

-- Some packet is a SYNC.
abbrev pub saves : List Delivery → Bool
saves out = any (λ d. type_eq d.packet.message_type sync) out

-- The runs of the system of src/algorithms/RicartAgrawalaExclusionAlgorithm.h in which a SYNC is sent
-- only by the owner of the mutex `m`.
pub data Run (names : List Bytes) (n : ℕ) (m : Bytes) : ℕ → System → Type 0 where
  begins : Run names n m 0 (start_system names n)
  acts :
      {k : ℕ} {s : System} (i : ℕ) {p : Process} {out : List Delivery}
      → Run names n m k s
      → i < n
      → Act n (s.process i) p out
      → (saves out ≡ true → Owns m (s.process i))
      → Run names n m (suc k) (change s i p out)
  receives :
      {k : ℕ} {s : System} (i j : ℕ) {packet : Packet} {rest : List Packet}
      → Run names n m k s
      → i < n
      → j < n
      → (s.process i).hand ≡ none
      → s.channel j i ≡ packet ∷ rest
      → Run names n m (suc k) (record {
        process = update s.process i (taken (s.process i) packet);
        channel = take_from s.channel j i rest;
      })

pub Run-Reach :
    {names : List Bytes} {n : ℕ} {m : Bytes} {k : ℕ} {s : System}
    → Run names n m k s
    → Reach names n k s
Run-Reach begins = start
Run-Reach (acts i r li a h) = later (Run-Reach r) (act i li a)
Run-Reach (receives i j r li lj free first) = later (Run-Reach r) (receive i j li lj free first)

-- 1 for a SYNC from `j`.
abbrev pub synced : ℕ → Packet → ℕ
synced j p = if type_eq p.message_type sync then (if p.source == j then 1 else 0) else 0

-- Of the packets from `j` to process `i`, which is `p`: none of the saved states of `j` is behind an
-- agreement, and none is on the way when the agreement is in.
pub record IsFresh (m : Bytes) (j : ℕ) (p : Process) (back : List Packet) : Type 0 where
  pub behind : IsBehind (weigh mutex_agreement m j) (synced j) back
  pub held : in_hand (weigh mutex_agreement m j) p.hand ≢ 0 → count (synced j) back ≡ 0
  pub agreed :
      count (weigh mutex_agreement m j) (collected m p.main) ≢ 0
      → count (synced j) back + in_hand (synced j) p.hand ≡ 0
  pub owned : Owns m p → count (synced j) back + in_hand (synced j) p.hand ≡ 0
