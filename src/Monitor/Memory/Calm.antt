-- ===== src/Monitor/Memory/Calm.antt =====
-- What is on the way to the owner of the mutex, in two processes.
use distributed_monitor.Base.{ℕ, ◌<◌, ◌^◌, ◌≡◌, ◌≢◌, sym, subst, List, some, arith, All, Bytes}
use distributed_monitor.Communication.Packet.{Packet}
use distributed_monitor.Exclusion.System.{Owns}
use distributed_monitor.Exclusion.System.{System}
use distributed_monitor.Exclusion.Defs.{IsFrom, IsFor, IsHand, Inv}
use distributed_monitor.Exclusion.Network.{All-mono}
use distributed_monitor.Exclusion.Invariant.{Reach-Inv}
use distributed_monitor.Monitor.Fresh.{Run, Run-Reach}
use distributed_monitor.Monitor.Fresh.Current.{owner_none_on_the_way}
use distributed_monitor.Monitor.Sync.{Shared}
use distributed_monitor.Monitor.Memory.CatchUp.{IsOther, catch_up, catch_up-IsOther}
use distributed_monitor.Monitor.Memory.Sent.{synced-IsOther}

module _ {names : List Bytes} {m : Bytes} {k : ℕ} {s : System} (fits : k < 2 ^ 64)
    (run : Run names 2 m k s) where
  pub two_inv : Inv 2 k m s
  two_inv = Reach-Inv m (omega arith) fits (Run-Reach run)

  calm_channel :
      (i j : ℕ) → i < 2 → j < 2 → i ≢ j → Owns m (s.process i) → All IsOther (s.channel j i)
  calm_channel i j li lj ne o =
      synced-IsOther j (s.channel j i)
        (All-mono (IsFrom 2 j i k) (λ p. p.source ≡ j) (s.channel j i) (λ p h. h.0)
          (two_inv.carried j i lj li))
        (owner_none_on_the_way (omega arith) fits run i j li lj ne o).0

  -- The hand of the owner holds no SYNC.
  pub calm_hand :
      (i : ℕ) (packet : Packet)
      → i < 2
      → Owns m (s.process i)
      → (s.process i).hand ≡ some packet
      → IsOther packet
  calm_hand i packet li o e =
      let held : IsFor 2 i k packet = subst (IsHand 2 i k) e (two_inv.local i li).hand_ok in
      let none_ =
        owner_none_on_the_way (omega arith) fits run i packet.source li held.0 (λ z. held.1 (sym z))
          o in
      ground (arith, none_.1, e)

  pub owner_catch_up :
      {V : Type 0} (shared : Shared V) (i j : ℕ) (v : V)
      → i < 2
      → j < 2
      → i ≢ j
      → Owns m (s.process i)
      → catch_up shared m v (s.process i).hand (s.channel j i) ≡ v
  owner_catch_up shared i j v li lj ne o =
      catch_up-IsOther shared m v (s.process i).hand (s.channel j i) (λ p. calm_hand i p li o)
        (calm_channel i j li lj ne o)
