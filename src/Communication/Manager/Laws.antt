-- ===== src/Communication/Manager/Laws.antt =====
-- Which callbacks a packet reaches, and what a subscription that ends leaves behind.
use distributed_monitor.Base.{
  ℕ, suc, ◌<◌, ◌≡◌, ◌⊎◌, inl, inr, refl, ap, ◌∙◌, Bool, true, false, List, [], ◌∷◌, ◌++◌, none,
  some, arith, All, Option-cases,
}
use distributed_monitor.Communication.Packet.{Packet}
use distributed_monitor.Communication.Manager.{
  Subscription, Manager, leave, subscribe, finish, unsubscribe, dispatch, handle,
}

module _ {S : Type 0} where
  -- No predicate of the list takes the packet in the state.
  abbrev pub Ignores : Packet → S → List (ℕ × Subscription S) → Type 0
  Ignores p s = All (λ e. e.1.predicate s p ≡ some false)

  dispatch-ignored :
      (l : List (ℕ × Subscription S)) (p : Packet) (s : S) (invoked : Bool)
      → Ignores p s l
      → dispatch l p s invoked ≡ some (s, invoked)
  unfolding dispatch
  dispatch-ignored [] p s invoked h = refl
  dispatch-ignored ((id, c) ∷ l) p s invoked h = rw h.0 (dispatch-ignored l p s invoked h.1)

  dispatch-append :
      (l k : List (ℕ × Subscription S)) (p : Packet) (s : S) (invoked : Bool)
      → Ignores p s l
      → dispatch (l ++ k) p s invoked ≡ dispatch k p s invoked
  unfolding dispatch
  dispatch-append [] k p s invoked h = refl
  dispatch-append ((id, c) ∷ l) k p s invoked h = rw h.0 (dispatch-append l k p s invoked h.1)

  -- A packet that no predicate takes is an error.
  pub handle-ignored :
      (m : Manager S) (p : Packet) (s : S) → Ignores p s m.subscriptions → handle m p s ≡ none
  unfolding handle
  handle-ignored m p s h = ap finish (dispatch-ignored m.subscriptions p s false h)

  -- A packet that one predicate takes, none before it in the state before the callback and none
  -- after it in the state that the callback makes, is handled by the callback of that subscription
  -- alone; if the callback throws, so does the handling.
  pub handle-one :
      (m : Manager S) (p : Packet) (s : S) (before after : List (ℕ × Subscription S)) (id : ℕ)
      (c : Subscription S)
      → m.subscriptions ≡ before ++ (id, c) ∷ after
      → Ignores p s before
      → c.predicate s p ≡ some true
      → ((s' : S) → c.callback p s ≡ some s' → Ignores p s' after)
      → handle m p s ≡ c.callback p s
  unfolding handle
  handle-one m p s before after id c e hb hc ha = rw e (
      ap finish (dispatch-append before ((id, c) ∷ after) p s false hb)
      ∙ last (Option-cases (c.callback p s)))
    where
      last :
          ((c.callback p s ≡ none) ⊎ ((s' : S) × (c.callback p s ≡ some s')))
          → finish (dispatch ((id, c) ∷ after) p s false) ≡ c.callback p s
      last (inl h) = unfold dispatch in rw (hc, h)
      last (inr (s', h)) =
          unfold dispatch in rw (hc, h) (ap finish (dispatch-ignored after p s' true (ha s' h)))

  -- No subscription has the number, or a later one.
  abbrev pub Fresh : ℕ → List (ℕ × Subscription S) → Type 0
  Fresh id = All (λ e. e.0 < id)

  leave-Fresh : (id : ℕ) (l : List (ℕ × Subscription S)) → Fresh id l → leave id l ≡ l
  unfolding leave
  leave-Fresh id [] h = refl
  leave-Fresh id ((j, d) ∷ l) h = ground (arith, leave-Fresh id l)

  -- The managers after `k` calls of `subscribe`, with calls of `unsubscribe` in between.
  pub data Managed : ℕ → Manager S → Type 0 where
    constructed : Managed 0 (record { subscriptions = []; subscription_seq_no = 0 })
    subscribed :
        {k : ℕ} {m : Manager S} (c : Subscription S)
        → Managed k m
        → Managed (suc k) (subscribe m c).0
    unsubscribed : {k : ℕ} {m : Manager S} (id : ℕ) → Managed k m → Managed k (unsubscribe m id)
