-- ===== src/Condition/Movers.antt =====
-- What a step of one process is for each other one.
use distributed_monitor.Base.{
  ℕ, ◌^◌, ◌≤◌, ◌<◌, ◌≡◌, ◌≢◌, refl, sym, ap, ◌∙◌, Bool, true, List, [], ◌∷◌, ◌++◌, append-nil,
  arith, if◌then◌else◌, count, Bytes, inl, inr,
}
use distributed_monitor.Communication.Packet.{
  MessageType, type_eq, Packet, cond_wait, cond_wait_end, cond_wait_end_confirm, cond_notify,
}
use distributed_monitor.Communication.Clock.{Delivery, tick, send, send_others}
use distributed_monitor.Communication.Clock.Laws.{one_at}
use distributed_monitor.Exclusion.Defs.{weigh}
use distributed_monitor.Exclusion.Network.{count-sent_to-spread, sent_to, spread, sent_to-spread}
use distributed_monitor.Exclusion.Quorum.{each_answered}
use distributed_monitor.Condition.Algorithm.{
  waiting, touch, begin_wait, end_wait, are_confirmations_complete,
}
use distributed_monitor.Condition.System
use distributed_monitor.Condition.System.{
  Stage, outside, notifying, sleeping, confirming, Member, first_source, Act, find_one, find_none,
  find_all, notify, start_wait, stop_wait, confirmed,
}
use distributed_monitor.Condition.Protocol.{Pair, from, aims, received, asleep, ending}
use distributed_monitor.Condition.Transitions.{
  asker_quiet, asker_starts, asker_stops, asker_returns, replier_quiet,
}
use distributed_monitor.Condition.Members.{
  Local, sent_to-spread_zero, waiting-touch, sources-from, first_source-from,
}
use distributed_monitor.Condition.Acts.{ours, weigh-ours}

module _ (name : Bytes) (n i : ℕ) where
  module _ {m : Member} (l : Local name n i m) where
    -- A packet to all others comes to each of them once.
    others_at :
        {j : ℕ} (t : MessageType)
        → j < n
        → i ≢ j
        → sent_to j (spread (ours name n i m t) m.condition.communicator.other_processes)
          ≡ ours name n i m t ∷ []
    unfolding tick
    others_at {j} t lj ne =
        rw l.others (sent_to-spread (ours name n i m t) n i j lj (λ e. ne (sym e)))

    others_weight :
        {j : ℕ} (t u : MessageType)
        → j < n
        → i ≢ j
        → count
            (weigh u name i)
            (sent_to j (spread (ours name n i m t) m.condition.communicator.other_processes))
          ≡ (if type_eq t u then 1 else 0)
    others_weight t u lj ne =
        omega (arith, ap (count (weigh u name i)) (others_at t lj ne), weigh-ours name n i t u l)

    all_confirmed :
        {ps : List Packet} {j : ℕ}
        → n < 2 ^ 31
        → i < n
        → ((b : ℕ)
            → b < n
            → i ≢ b
            → count (weigh cond_wait_end_confirm name b) (received m.stage) ≤ 1)
        → j < n
        → i ≢ j
        → m.stage ≡ confirming ps
        → are_confirmations_complete m.condition ps ≡ true
        → count (weigh cond_wait_end_confirm name j) (received m.stage) ≡ 1
    unfolding are_confirmations_complete
    all_confirmed small li once lj ne e f =
        each_answered cond_wait_end_confirm name (received m.stage) small li lj ne l.collected once
          (rw e (ground (arith, f, l.size)))

  module _ {owned : Bool} {m : Member} (l : Local name n i m) where
    -- What it does as the process that waits.
    pub Act-asker :
        {m' : Member} {out : List Delivery} (small : n < 2 ^ 31) (li : i < n)
        → ((b : ℕ)
            → b < n
            → i ≢ b
            → count (weigh cond_wait_end_confirm name b) (received m.stage) ≤ 1)
        → Act name owned m m' out
        → {j : ℕ} {q : Member} {there back : List Packet} → j < n
        → i ≢ j
        → (owned ≡ true → aims i q.stage ≡ 0)
        → Pair name i j m q there back
        → Pair name i j m' q (there ++ sent_to j out) back
    unfolding begin_wait end_wait send_others send tick
    Act-asker small li once (find_one o e f) {j} lj ne free pr =
        asker_quiet name pr _ []
          (ap (λ z. count (weigh cond_wait_end_confirm name j) (received z)) (sym e))
          (sym (ap asleep e)) (sym (ap ending e)) refl refl
    Act-asker small li once (find_none o e f) lj ne free pr =
        asker_quiet name pr _ [] refl refl refl refl refl
    Act-asker small li once (find_all o e f) {j} lj ne free pr =
        asker_quiet name pr _ []
          (ap (λ z. count (weigh cond_wait_end_confirm name j) (received z)) (sym e))
          (sym (ap asleep e)) (sym (ap ending e)) refl refl
    Act-asker small li once (notify {recipients} e) {j} lj ne free pr =
        asker_quiet name pr _ (sent_to j (spread (ours name n i m cond_notify) recipients))
          (ap (λ z. count (weigh cond_wait_end_confirm name j) (received z)) (sym e))
          (sym (ap asleep e)) (sym (ap ending e))
          (count-sent_to-spread (weigh cond_wait name i) j (ours name n i m cond_notify) recipients
            refl)
          (count-sent_to-spread (weigh cond_wait_end name i) j (ours name n i m cond_notify)
            recipients refl)
    Act-asker small li once (start_wait o e) {j} lj ne free pr =
        asker_starts name pr _
          (sent_to j (spread (ours name n i m cond_wait) m.condition.communicator.other_processes))
          (omega (arith, ap asleep e, ap ending e)) refl refl refl
          (others_weight l cond_wait cond_wait lj ne)
          (others_weight l cond_wait cond_wait_end lj ne)
    Act-asker small li once (stop_wait o e) {j} lj ne free pr =
        asker_stops name pr _
          (sent_to j
            (spread (ours name n i m cond_wait_end) m.condition.communicator.other_processes))
          (ap asleep e) (ap ending e) (free o) refl refl refl
          (others_weight l cond_wait_end cond_wait lj ne)
          (others_weight l cond_wait_end cond_wait_end lj ne)
    Act-asker small li once (confirmed e f) lj ne free pr = rw append-nil (
        asker_returns name pr _ (all_confirmed l small li once lj ne e f) refl (ap asleep e) refl
          refl (ap ending e))
    Act-asker small li once (System.tick t) lj ne free pr =
        asker_quiet name pr _ [] refl refl refl refl refl

    -- What it does as the other process.
    pub Act-replier :
        {m' : Member} {out : List Delivery}
        → Act name owned m m' out
        → {j : ℕ} {p : Member} {there back : List Packet} → j < n
        → i ≢ j
        → (owned ≡ true → ending p.stage ≡ 0)
        → Pair name j i p m there back
        → Pair name j i p m' there (back ++ sent_to j out)
    unfolding begin_wait end_wait send_others send tick touch
    Act-replier (find_one {recipient} o e f) {j} lj ne free pr =
        replier_quiet name pr _ []
          (omega (arith, ap (count (from j)) (waiting-touch name m.condition)))
          (λ h. inr (
            λ z. h (
                omega (
                  arith,
                  z,
                  ap (count (one_at j)) f,
                  first_source-from j (waiting name m.condition),
                )),
            free o,
          ))
          refl (λ h. absurd (h refl))
    Act-replier (find_none o e f) {j} lj ne free pr =
        replier_quiet name pr _ []
          (omega (arith, ap (count (from j)) (waiting-touch name m.condition))) (λ h. inl h) refl
          (λ h. absurd (h refl))
    Act-replier (find_all o e f) {j} lj ne free pr =
        replier_quiet name pr _ []
          (omega (arith, ap (count (from j)) (waiting-touch name m.condition)))
          (λ h. inr (λ z. h (omega (arith, z, sources-from j (waiting name m.condition))), free o))
          refl (λ h. absurd (h refl))
    Act-replier (notify {recipients} e) {j} lj ne free pr =
        replier_quiet name pr _ (sent_to j (spread (ours name n i m cond_notify) recipients))
          (omega arith) (λ h. absurd (h refl))
          (count-sent_to-spread (weigh cond_wait_end_confirm name i) j (ours name n i m cond_notify)
            recipients refl)
          (λ h z. h (
            ap (count (weigh cond_notify name i)) (
              sent_to-spread_zero j (ours name n i m cond_notify) recipients
                (sym (ap (aims j) e) ∙ z))))
    Act-replier (start_wait o e) {j} lj ne free pr =
        replier_quiet name pr _
          (sent_to j (spread (ours name n i m cond_wait) m.condition.communicator.other_processes))
          (omega arith) (λ h. absurd (h refl))
          (others_weight l cond_wait cond_wait_end_confirm lj ne)
          (λ h. absurd (h (others_weight l cond_wait cond_notify lj ne)))
    Act-replier (stop_wait o e) {j} lj ne free pr =
        replier_quiet name pr _
          (sent_to j
            (spread (ours name n i m cond_wait_end) m.condition.communicator.other_processes))
          (omega arith) (λ h. absurd (h refl))
          (others_weight l cond_wait_end cond_wait_end_confirm lj ne)
          (λ h. absurd (h (others_weight l cond_wait_end cond_notify lj ne)))
    Act-replier (confirmed e f) lj ne free pr =
        replier_quiet name pr _ [] (omega arith) (λ h. absurd (h refl)) refl (λ h. absurd (h refl))
    Act-replier (System.tick t) lj ne free pr =
        replier_quiet name pr _ [] (omega arith) (λ h. inl h) refl (λ h. absurd (h refl))
