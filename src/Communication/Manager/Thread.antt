-- ===== src/Communication/Manager/Thread.antt =====
-- The receiving thread of communication/CommunicationManager.h: `listen`, the loop of
-- `threadFunction` and the destructor. The thread reads `terminate` before each receive, and a receive
-- has no time limit. Between its steps other threads change the subscriptions and the state.
use distributed_monitor.Base.{
  ℕ, ◌+◌, ◌≡◌, refl, Bool, true, List, [], ◌∷◌, Option, none, some, ◌>>=◌, some_subst, Option-cases,
  if◌then◌else◌, count, arith, ◌∙◌, inl, inr,
}
use distributed_monitor.Communication.Packet.{Packet}
use distributed_monitor.Communication.Manager.{Manager, handle}

-- Where the receiving thread stands. `thrown` is an exception that leaves its function.
pub data Phase : Type 0 where
  absent ready receiving ended thrown : Phase

pub record Receiver (S : Type 0) : Type 0 where
  pub manager : Manager S
  pub state : S
  pub phase : Phase
  pub terminate : Bool

pub data Event (S : Type 0) : Type 0 where
  tests : Event S
  takes : Packet → Event S
  changes : Manager S → S → Event S
  stops : Event S

abbrev pub start_thread : Phase → Phase
start_thread absent = ready
start_thread ready = ready
start_thread receiving = receiving
start_thread ended = ended
start_thread thrown = thrown

abbrev pub in_receive : Phase → ℕ
in_receive absent = 0
in_receive ready = 0
in_receive receiving = 1
in_receive ended = 0
in_receive thrown = 0

module _ {S : Type 0} where
  unfoldable pub listen : Receiver S → Receiver S
  listen r = record r { phase = start_thread r.phase }

  -- The destructor up to its `join`.
  unfoldable pub stop : Receiver S → Receiver S
  stop r = record r { terminate = true }

  abbrev pub test_at : Receiver S → Phase → Option (Receiver S)
  test_at r ready = some (record r { phase = if r.terminate then ended else receiving })
  test_at r absent = none
  test_at r receiving = none
  test_at r ended = none
  test_at r thrown = none

  abbrev pub after_handle : Receiver S → Option S → Receiver S
  after_handle r none = record r { phase = thrown }
  after_handle r (some s) = record r { state = s; phase = ready }

  abbrev pub take_at : Receiver S → Packet → Phase → Option (Receiver S)
  take_at r p receiving = some (after_handle r (handle r.manager p r.state))
  take_at r p absent = none
  take_at r p ready = none
  take_at r p ended = none
  take_at r p thrown = none

  -- `none` is a step that the thread cannot take where it stands.
  unfoldable pub step : Event S → Receiver S → Option (Receiver S)
  unfolding stop
  step tests r = test_at r r.phase
  step (takes p) r = take_at r p r.phase
  step (changes m s) r = some (record r { manager = m; state = s })
  step stops r = some (stop r)

  unfoldable pub run : List (Event S) → Receiver S → Option (Receiver S)
  unfolding step
  run [] r = some r
  run (e ∷ es) r = do r' ← step e r; run es r'

  abbrev pub one_taken : Event S → ℕ
  one_taken tests = 0
  one_taken (takes _) = 1
  one_taken (changes _ _) = 0
  one_taken stops = 0

  after_handle-phase :
      (r : Receiver S) (o : Option S)
      → ((after_handle r o).terminate ≡ r.terminate) × (in_receive (after_handle r o).phase ≡ 0)
  after_handle-phase r none = (refl, refl)
  after_handle-phase r (some s) = (refl, refl)

  abbrev Balance : Event S → Phase → Receiver S → Type 0
  Balance e phase r' =
      (r'.terminate ≡ true) × (one_taken e + in_receive r'.phase ≡ in_receive phase)

  test_at-Balance :
      (r : Receiver S) (phase : Phase) {r' : Receiver S}
      → test_at r phase ≡ some r'
      → r.terminate ≡ true
      → Balance tests phase r'
  test_at-Balance r absent h t = cc
  test_at-Balance r ready {r'} h t =
      some_subst (Balance tests ready)
        (record r { phase = if r.terminate then ended else receiving }) refl h (t, rw t refl)
  test_at-Balance r receiving h t = cc
  test_at-Balance r ended h t = cc
  test_at-Balance r thrown h t = cc

  take_at-Balance :
      (r : Receiver S) (p : Packet) (phase : Phase) {r' : Receiver S}
      → take_at r p phase ≡ some r'
      → r.terminate ≡ true
      → Balance (takes p) phase r'
  take_at-Balance r p absent h t = cc
  take_at-Balance r p ready h t = cc
  take_at-Balance r p receiving {r'} h t =
      let o = handle r.manager p r.state in
      some_subst (Balance (takes p) receiving) (after_handle r o) refl h
        ((after_handle-phase r o).0 ∙ t, omega (arith, (after_handle-phase r o).1))
  take_at-Balance r p ended h t = cc
  take_at-Balance r p thrown h t = cc

  step-Balance :
      (e : Event S) (r : Receiver S) {r' : Receiver S}
      → step e r ≡ some r'
      → r.terminate ≡ true
      → Balance e r.phase r'
  unfolding step
  step-Balance tests r h t = test_at-Balance r r.phase h t
  step-Balance (takes p) r h t = take_at-Balance r p r.phase h t
  step-Balance (changes m s) r h t =
      some_subst (Balance (changes m s) r.phase) (record r { manager = m; state = s }) refl h
        (t, omega arith)
  step-Balance stops r h t =
      some_subst (Balance stops r.phase) (record r { terminate = true }) refl h (refl, omega arith)

  -- The end of the receiving thread: once `terminate` is set, a thread that stands in `receive` takes at
  -- most one more packet, any other takes none, and it stands in `receive` until it has taken that
  -- packet, whatever other threads do.
  pub run-in_receive :
      (es : List (Event S)) (r r' : Receiver S)
      → r.terminate ≡ true
      → run es r ≡ some r'
      → (r'.terminate ≡ true) × (count one_taken es + in_receive r'.phase ≡ in_receive r.phase)
  unfolding run
  run-in_receive [] r r' t h =
      some_subst (λ z. (z.terminate ≡ true) × (0 + in_receive z.phase ≡ in_receive r.phase)) r refl
        h (t, omega arith)
  run-in_receive (e ∷ es) r r' t h = elim (Option-cases (step e r)) [
    | inl none_ ↦ (let k : none ≡ some r' = rw none_ at h in cc)
    | inr (r1, e1) ↦
        let first = step-Balance e r e1 t in
        let rest = run-in_receive es r1 r' first.0 (rw e1 at h) in
        (rest.0, omega (arith, first.1, rest.1))
  ]
