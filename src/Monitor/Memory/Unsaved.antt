-- ===== src/Monitor/Memory/Unsaved.antt =====
-- What is written before a wait: `wait` of a condition variable gives the mutex up by
-- `DistributedMutex::unlock`, which sends no SYNC.
use distributed_monitor.Base.{
  ℕ, suc, ◌+◌, ◌<◌, ◌≤◌, ◌^◌, ◌≡◌, ◌≢◌, refl, ap, sym, subst, ◌∙◌, true, false, ◌⊎◌, inl, inr,
  Bool-cases, List, ◌∷◌, none, arith, length, ==_ne, Bytes,
}
use distributed_monitor.Communication.Packet.{cond_wait, cond_wait_end, mutex_request, Packet}
use distributed_monitor.Communication.Clock.{Delivery, send, send_one, send_others}
use distributed_monitor.Condition.Algorithm.{Condition, begin_wait, end_wait}
use distributed_monitor.Exclusion.Algorithm.{queue, send_agreement}
use distributed_monitor.Monitor.Memory.Sent.{saves-spread, Outcome-saves}
use distributed_monitor.Exclusion.System.{
  Process, System, change, update, take_from, taken, Act, acquire, acquired, release, answer,
  released, handled, other_send, Owns,
}
use distributed_monitor.Exclusion.Handler.{on_packet-Outcome}
use distributed_monitor.Monitor.Fresh.{saves, Run}
use distributed_monitor.Monitor.Sync.{Shared}
use distributed_monitor.Monitor.Memory.{Memory, after_hand, set_variables, Shares}
use distributed_monitor.Monitor.Memory.CatchUp.{catch_up}
use distributed_monitor.Monitor.Memory.Calm.{two_inv, owner_catch_up}
use distributed_monitor.Monitor.Memory.Still.{acts-caught_up, receives-caught_up}
use distributed_monitor.Monitor.Memory.Kept.{Shares-Run}
use distributed_monitor.Monitor.Memory.Latest.{Shares-Agrees}

-- A step of a process that waits for a condition variable, or of its receiving thread: what other
-- components send in it is what `wait` sends at its beginning or at its end.
abbrev pub IsOfWait : {p p' : Process} {out : List Delivery} → Bytes → Act 2 p p' out → Type 0
IsOfWait {p} {out = out} cv (other_send t message recipient lt ne a b) =
    (c : Condition) × (c.communicator ≡ p.exclusion.communicator)
    × ((out ≡ (begin_wait c cv).1) ⊎ (out ≡ (end_wait c cv).1))
IsOfWait cv (acquire name r e) = Unit
IsOfWait cv (acquired e c) = Unit
IsOfWait cv (release name r e) = Unit
IsOfWait cv (answer e) = Unit
IsOfWait cv (released e) = Unit
IsOfWait cv (handled f e h) = Unit

begin_wait-saves : (c : Condition) (cv : Bytes) → saves (begin_wait c cv).1 ≡ false
unfolding begin_wait send_others send
begin_wait-saves c cv =
    saves-spread (send_others c.communicator cond_wait cv).1 c.communicator.other_processes refl

end_wait-saves : (c : Condition) (cv : Bytes) → saves (end_wait c cv).1 ≡ false
unfolding end_wait send_others send
end_wait-saves c cv =
    saves-spread (send_others c.communicator cond_wait_end cv).1 c.communicator.other_processes refl

-- No step of a wait sends a SYNC.
IsOfWait-saves :
    {p p' : Process} {out : List Delivery} (cv : Bytes) (a : Act 2 p p' out)
    → IsOfWait cv a
    → saves out ≡ false
unfolding queue send_agreement send_one send_others send
IsOfWait-saves cv (other_send t message recipient lt ne a b) (c, same, inl e) =
    ap saves e ∙ begin_wait-saves c cv
IsOfWait-saves cv (other_send t message recipient lt ne a b) (c, same, inr e) =
    ap saves e ∙ end_wait-saves c cv
IsOfWait-saves {p} cv (acquire name r e) h =
    saves-spread (send_others p.exclusion.communicator mutex_request name).1
      p.exclusion.communicator.other_processes refl
IsOfWait-saves cv (acquired e c) h = refl
IsOfWait-saves cv (release name r e) h = refl
IsOfWait-saves cv (answer e) h = refl
IsOfWait-saves cv (released e) h = refl
IsOfWait-saves {p} cv (handled {packet} f e r) h = Outcome-saves (on_packet-Outcome p packet r)

module _ {V : Type 0} (shared : Shared V) (m : Bytes) where
  -- `l` steps of two processes in which nothing is written and no SYNC is sent.
  data Silent (s : System) (variables : ℕ → V) : ℕ → System → (ℕ → V) → Type 0 where
    still : Silent s variables 0 s variables
    moves :
        {l : ℕ} {t : System} {w : ℕ → V} (i : ℕ) {p : Process} {out : List Delivery}
        → Silent s variables l t w
        → i < 2
        → Act 2 (t.process i) p out
        → saves out ≡ false
        → Silent s variables
            (suc l)
            (change t i p out)
            (set_variables shared m w i (after_hand shared m (t.process i).hand p.hand (w i)))
    gets :
        {l : ℕ} {t : System} {w : ℕ → V} (i j : ℕ) {packet : Packet} {rest : List Packet}
        → Silent s variables l t w
        → i < 2
        → j < 2
        → (t.process i).hand ≡ none
        → t.channel j i ≡ packet ∷ rest
        → Silent s variables
            (suc l)
            (record {
              process = update t.process i (taken (t.process i) packet);
              channel = take_from t.channel j i rest;
            })
            w

  -- `l` steps from the moment when process `i` begins `wait` to that when the other process owns the
  -- mutex. Process `i` takes the steps of `wait` and of its receiving thread. The other process does not
  -- own the mutex before, and like any process sends a SYNC only while it does.
  pub data Waits (cv : Bytes) (i : ℕ) (s : System) (variables : ℕ → V)
      : ℕ → System → (ℕ → V) → Type 0 where
    stays : Waits cv i s variables 0 s variables
    goes :
        {l : ℕ} {t : System} {w : ℕ → V} {p : Process} {out : List Delivery}
        → Waits cv i s variables l t w
        → i < 2
        → (a : Act 2 (t.process i) p out) → IsOfWait cv a
        → Waits cv i s variables
            (suc l)
            (change t i p out)
            (set_variables shared m w i (after_hand shared m (t.process i).hand p.hand (w i)))
    others :
        {l : ℕ} {t : System} {w : ℕ → V} (j : ℕ) {p : Process} {out : List Delivery}
        → Waits cv i s variables l t w
        → j < 2
        → ¬ (Owns m (t.process j))
        → Act 2 (t.process j) p out
        → (saves out ≡ true → Owns m (t.process j))
        → Waits cv i s variables
            (suc l)
            (change t j p out)
            (set_variables shared m w j (after_hand shared m (t.process j).hand p.hand (w j)))
    takes :
        {l : ℕ} {t : System} {w : ℕ → V} (a b : ℕ) {packet : Packet} {rest : List Packet}
        → Waits cv i s variables l t w
        → a < 2
        → b < 2
        → (t.process a).hand ≡ none
        → t.channel b a ≡ packet ∷ rest
        → Waits cv i s variables
            (suc l)
            (record {
              process = update t.process a (taken (t.process a) packet);
              channel = take_from t.channel b a rest;
            })
            w

  Waits-Silent :
      {cv : Bytes} {i : ℕ} {s : System} {variables : ℕ → V} {l : ℕ} {t : System} {w : ℕ → V}
      → Waits cv i s variables l t w
      → Silent s variables l t w
  Waits-Silent stays = still
  Waits-Silent {cv} {i} (goes x li a h) = moves i (Waits-Silent x) li a (IsOfWait-saves cv a h)
  Waits-Silent (others j {out = out} x lj outside a h) =
      moves j (Waits-Silent x) lj a
        (elim (Bool-cases (saves out)) [ inl e ↦ absurd (outside (h e)) | inr e ↦ e ])
  Waits-Silent (takes a b x la lb free first) = gets a b (Waits-Silent x) la lb free first

  one_more :
      {names : List Bytes} (l k : ℕ) {s : System}
      → Run names 2 m (suc (l + k)) s
      → Run names 2 m (suc l + k) s
  one_more {names} l k {s = s} r = subst (λ z. Run names 2 m z s) (omega arith) r

  below : (l k : ℕ) → suc l + k < 2 ^ 64 → l + k < 2 ^ 64
  below l k h = omega arith

  Silent-Run :
      {names : List Bytes} {k : ℕ} {s : System} {variables : ℕ → V} {l : ℕ} {t : System} {w : ℕ → V}
      → Run names 2 m k s
      → Silent s variables l t w
      → Run names 2 m (l + k) t
  Silent-Run {names} {s = s} r still = subst (λ z. Run names 2 m z s) (omega arith) r
  Silent-Run {k = k} r (moves {l = l} i x li a silent) =
      one_more l k (Run.acts i (Silent-Run r x) li a (λ e. absurd (cc)))
  Silent-Run {k = k} r (gets {l = l} i j x li lj free first) =
      one_more l k (Run.receives i j (Silent-Run r x) li lj free first)

  -- The receiver gets no further.
  Silent-caught_up :
      {names : List Bytes} {k : ℕ} {s : System} {variables : ℕ → V} {l : ℕ} {t : System} {w : ℕ → V}
      → l + k < 2 ^ 64
      → Run names 2 m k s
      → Silent s variables l t w
      → (y j : ℕ) → y < 2
      → j < 2
      → y ≢ j
      → catch_up shared m (w y) (t.process y).hand (t.channel j y)
        ≡ catch_up shared m (variables y) (s.process y).hand (s.channel j y)
  Silent-caught_up fits r still y j ly lj ne = refl
  Silent-caught_up {k = k} fits r (moves {l = l} {w = w} i x li a silent) y j ly lj ne =
      acts-caught_up shared m (two_inv (below l k fits) (Silent-Run r x)) w i li a silent y j ly lj
        ne
      ∙ Silent-caught_up (below l k fits) r x y j ly lj ne
  Silent-caught_up {k = k} fits r (gets {l = l} {w = w} i b x li lb free first) y j ly lj ne =
      receives-caught_up shared m (two_inv (below l k fits) (Silent-Run r x)) w i b li lb free first
        y j ly lj ne
      ∙ Silent-caught_up (below l k fits) r x y j ly lj ne

  module _ (IsValid : V → Type 0) (short : length m ≤ 127)
      (law : (v w : V)
        → IsValid v
        → IsValid w
        → shared.restore_state (shared.save_state v) w ≡ v) where
    -- A write before a wait is not seen. Take a run of two processes whose monitors begin alike, in
    -- which only the owner of the mutex writes and saves, and whatever was written has been saved. Then
    -- process `i` writes and waits for a condition variable: until the other process comes to own the
    -- mutex, it only announces the wait, gives the mutex up, takes it again, announces the end of the
    -- wait, and handles packets. The other process, once it owns the mutex, has what was written
    -- before. There are fewer than 2 ^ 64 steps in all, the name has at most 127 bytes, and what one
    -- valid set of variables has saved, another restores.
    pub waits-written :
        {names : List Bytes} {k : ℕ} {x : Memory V} (cv : Bytes) (i j : ℕ) (v : V) {l : ℕ}
        {t : System} {w : ℕ → V}
        → l + k < 2 ^ 64
        → Shares shared m IsValid names k x
        → x.unsaved ≡ false
        → i < 2
        → j < 2
        → i ≢ j
        → Waits cv i x.system (set_variables shared m x.variables i v) l t w
        → Owns m (t.process j)
        → w j ≡ x.written
    waits-written cv i j v fits r saved li lj ne waits o =
        let run = Waits-Silent waits in
        let whole = Shares-Run shared m IsValid r in
        let agrees = Shares-Agrees shared m IsValid short law (omega (arith, fits)) r in
        sym (owner_catch_up fits (Silent-Run whole run) shared j i _ lj li (λ z. ne (sym z)) o)
        ∙ Silent-caught_up fits whole run j i lj li (λ z. ne (sym z))
        ∙ rw (==_ne i j ne) (agrees.saved j i lj li (λ z. ne (sym z)) saved)
