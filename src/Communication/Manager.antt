-- ===== src/Communication/Manager.antt =====
-- communication/CommunicationManager.h: subscriptions, and the receiving thread's dispatch of one
-- packet. `S` is whatever state the predicates read and the callbacks change; a predicate or a
-- callback that throws gives `none`.
pub mod Laws
pub mod Thread
pub mod Sending
use distributed_monitor.Base.{
  ℕ, ◌+◌, ◌%◌, ◌^◌, Bool, true, false, List, [], ◌∷◌, Option, none, some, ◌==◌, if◌then◌else◌,
}
use distributed_monitor.Communication.Packet.{Packet}

pub record Subscription (S : Type 0) : Type 0 where
  pub predicate : S → Packet → Option Bool
  pub callback : Packet → S → Option S

pub record Manager (S : Type 0) : Type 0 where
  pub subscriptions : List (ℕ × Subscription S)
  pub subscription_seq_no : ℕ  -- std::size_t

module _ {S : Type 0} where
  -- `subscriptions[id] = …`
  unfoldable pub enter : ℕ → Subscription S → List (ℕ × Subscription S) → List (ℕ × Subscription S)
  enter id c [] = (id, c) ∷ []
  enter id c ((j, d) ∷ l) = if j == id then (id, c) ∷ l else (j, d) ∷ enter id c l

  unfoldable pub leave : ℕ → List (ℕ × Subscription S) → List (ℕ × Subscription S)
  leave id [] = []
  leave id ((j, d) ∷ l) = let rest = leave id l in if j == id then rest else (j, d) ∷ rest

  unfoldable pub subscribe : Manager S → Subscription S → Manager S × ℕ
  unfolding enter
  subscribe m c = (
    record {
      subscriptions = enter m.subscription_seq_no c m.subscriptions;
      subscription_seq_no = (m.subscription_seq_no + 1) % 2 ^ 64;
    },
    m.subscription_seq_no,
  )

  unfoldable pub unsubscribe : Manager S → ℕ → Manager S
  unfolding leave
  unsubscribe m id = record m { subscriptions = leave id m.subscriptions }

  -- The loop over the subscriptions, with `anyCallbackInvoked`.
  unfoldable pub dispatch : List (ℕ × Subscription S) → Packet → S → Bool → Option (S × Bool)
  dispatch [] p s invoked = some (s, invoked)
  dispatch ((id, c) ∷ l) p s invoked = elim (c.predicate s p) [
    | none ↦ none
    | some false ↦ dispatch l p s invoked
    | some true ↦ elim (c.callback p s) [ none ↦ none | some s' ↦ dispatch l p s' true ]
  ]

  abbrev pub finish : Option (S × Bool) → Option S
  finish none = none
  finish (some (s, true)) = some s
  finish (some (s, false)) = none

  -- One round of `threadFunction` for a packet that was received. A packet that no predicate takes
  -- is an error.
  unfoldable pub handle : Manager S → Packet → S → Option S
  unfolding dispatch
  handle m p s = finish (dispatch m.subscriptions p s false)
