-- ===== src/Examples/Entry.antt =====
-- A monitor as its entries use it: the interface between the example programs and the monitor.
use distributed_monitor.Base.{◌≡◌, Bool, true, Option, some, Bytes}

-- `S` is the state of the whole process and `V` the shared variables in it. `enter` is the
-- construction of the object that `synchronized` returns, `leave` its destruction. `enter` and
-- `wait` return when the mutex is owned again, and other processes may have changed the variables;
-- `none` is a call that never returns.
pub record MonitorOps (V S : Type 0) : Type 0 where
  pub variables : S → V
  pub assign : V → S → S
  pub enter : S → Option S
  pub wait : Bytes → (V → Bool) → S → Option S
  pub notify_one : Bytes → S → S
  pub notify_all : Bytes → S → S
  pub leave : S → S
  pub variables-assign : (v : V) (s : S) → variables (assign v s) ≡ v
  pub wait_holds :
      (cv : Bytes) (p : V → Bool) (s : S) {s' : S} → wait cv p s ≡ some s' → p (variables s') ≡ true
  pub variables-notify_one : (cv : Bytes) (s : S) → variables (notify_one cv s) ≡ variables s
  pub variables-notify_all : (cv : Bytes) (s : S) → variables (notify_all cv s) ≡ variables s
  pub variables-leave : (s : S) → variables (leave s) ≡ variables s
