-- ===== src/Condition/Notices.antt =====
-- Whom `notifyOne` and `notifyAll` notify, and with what packet.
use distributed_monitor.Base.{
  ℕ, ◌≤◌, ◌≡◌, ◌⊎◌, inl, inr, refl, subst, true, false, List, [], ◌∷◌, arith, ◌==◌, if◌then◌else◌,
  count, any, All, Bytes, bytes_eq, bytes_eq_iff, Bool-cases,
}
use mathlib.Core.List.{Mem, mem-cons_self, mem-cons_of_mem}
use distributed_monitor.Base.Assoc
use distributed_monitor.Base.Assoc.{Assoc}
use native.Mathlib.Decide.{ℕ_discrete}
use distributed_monitor.Communication.Clock.Laws.{one_at}
use distributed_monitor.Communication.Packet.{cond_notify, Packet, insert_ordered}
use distributed_monitor.Communication.Clock.{Communicator, tick, send, send_one}
use distributed_monitor.Exclusion.Network.{sent_to, spread}
use distributed_monitor.Condition.Algorithm.{
  Condition, waiting, on_wait, touch, notify_one, insert_id, sources, is_empty, notify_all,
}
use distributed_monitor.Condition.Laws.{waiting-on_wait}

-- The COND_NOTIFY for the condition variable, with the next stamp of the process that sends it.
abbrev pub notification : Communicator → Bytes → Packet
notification c name = record {
  lamport_time = (tick c).current_lamport_time;
  source = c.my_process_id;
  message_type = cond_notify;
  message = name;
}

-- COND_WAITs are handled in turn.
abbrev pub on_waits : Condition → List Packet → Condition
on_waits a [] = a
on_waits a (p ∷ ps) = on_waits (on_wait a p) ps

insert_ordered-All {ℓ} :
    (P : Packet → Type ℓ) (s : List Packet) (p : Packet)
    → P p
    → All P s
    → All P (insert_ordered s p)
unfolding insert_ordered
insert_ordered-All P [] p h all = (h, tt)
insert_ordered-All P (q ∷ s) p h all = ground (arith, insert_ordered-All P s p)

on_waits-All {ℓ} :
    (P : Packet → Type ℓ) (name : Bytes) (ps : List Packet) (a : Condition)
    → All (λ p. p.message ≡ name → P p) ps
    → All P (waiting name a)
    → All P (waiting name (on_waits a ps))
on_waits-All P name [] a h all = all
on_waits-All P name (p ∷ ps) a h all =
    on_waits-All P name ps (on_wait a p) h.1 (elim (Bool-cases (bytes_eq p.message name)) [
      | inl e ↦
          rw (waiting-on_wait a p name, e)
            (insert_ordered-All P (waiting name a) p (h.0 ((bytes_eq_iff p.message name).0 e)) all)
      | inr e ↦ rw (waiting-on_wait a p name, e) all
    ])

-- Somebody stands first, with a stamp of at most `t`.
abbrev BeginsBy : ℕ → List Packet → Type 0
BeginsBy t [] = ⊥
BeginsBy t (p ∷ s) = p.lamport_time ≤ t

insert_ordered-BeginsBy :
    (t : ℕ) (s : List Packet) (p : Packet)
    → BeginsBy t s ⊎ (p.lamport_time ≤ t)
    → BeginsBy t (insert_ordered s p)
unfolding insert_ordered
insert_ordered-BeginsBy t [] p h = ground arith
insert_ordered-BeginsBy t (q ∷ s) p h = ground arith

on_waits-BeginsBy :
    (t : ℕ) (name : Bytes) (ps : List Packet) (a : Condition)
    → BeginsBy t (waiting name a)
    → BeginsBy t (waiting name (on_waits a ps))
on_waits-BeginsBy t name [] a h = h
on_waits-BeginsBy t name (p ∷ ps) a h =
    on_waits-BeginsBy t name ps (on_wait a p) (elim (Bool-cases (bytes_eq p.message name)) [
      | inl e ↦
          rw (waiting-on_wait a p name, e) (insert_ordered-BeginsBy t (waiting name a) p (inl h))
      | inr e ↦ rw (waiting-on_wait a p name, e) h
    ])

-- Whoever stands first after all of them is at least as early as each.
on_waits-first :
    (name : Bytes) (ps : List Packet) (a : Condition)
    → All (λ q. q.message ≡ name → BeginsBy q.lamport_time (waiting name (on_waits a ps))) ps
on_waits-first name [] a = tt
on_waits-first name (p ∷ ps) a = (
  λ e. on_waits-BeginsBy p.lamport_time name ps (on_wait a p) (
      rw (waiting-on_wait a p name, (bytes_eq_iff p.message name).1 e)
        (insert_ordered-BeginsBy p.lamport_time (waiting name a) p (inr (omega arith)))),
  on_waits-first name ps (on_wait a p),
)

All-Mem : (P : Packet → Type 0) (l : List Packet) → ((p : Packet) → Mem p l → P p) → All P l
All-Mem P [] f = tt
All-Mem P (x ∷ l) f =
    (f x (mem-cons_self {l = l}), All-Mem P l (λ p m. f p (mem-cons_of_mem x {l = l} m)))

on_waits-communicator :
    (ps : List Packet) (a : Condition) → (on_waits a ps).communicator ≡ a.communicator
unfolding on_wait
on_waits-communicator [] a = refl
on_waits-communicator (p ∷ ps) a = on_waits-communicator ps (on_wait a p)

-- After the COND_WAITs `notify_one` sends nothing, and none of them is for the condition variable, or it
-- sends a COND_NOTIFY to the sender of the earliest that is.
abbrev pub NotifiesEarliest : Condition → Bytes → List Packet → Type 0
NotifiesEarliest a name ps =
    (All (λ q. ¬ (q.message ≡ name)) ps × ((notify_one (on_waits a ps) name).1 ≡ []))
    ⊎ ((first : Packet) × Mem first ps
        × (first.message ≡ name)
        × All (λ q. q.message ≡ name → first.lamport_time ≤ q.lamport_time) ps
        × ((notify_one (on_waits a ps) name).1
            ≡ record { to = first.source; packet = notification a.communicator name } ∷ []))

-- A process that knows of nobody who waits on the condition variable handles COND_WAITs of any
-- processes, for any condition variables, in any order. Then `notify_one` either sends nothing, and
-- none of them was for this condition variable; or it sends one packet, a COND_NOTIFY with the name
-- of the condition variable and the next stamp of the clock, to the sender of one that was for it and
-- has the least stamp of those that were.
pub notify_one-earliest :
    (a : Condition) (name : Bytes) (ps : List Packet)
    → waiting name a ≡ []
    → NotifiesEarliest a name ps
unfolding notify_one send_one send tick touch
notify_one-earliest a name ps e = split (waiting name (on_waits a ps)) refl
  where
    split : (ws : List Packet) → waiting name (on_waits a ps) ≡ ws → NotifiesEarliest a name ps
    split [] w = inl (
      subst (λ z. All (λ q. q.message ≡ name → BeginsBy q.lamport_time z) ps) w
          (on_waits-first name ps a),
      rw w refl,
    )
    split (first ∷ rest) w =
        let known : All (λ p. Mem p ps × (p.message ≡ name)) (first ∷ rest) =
          subst (All (λ p. Mem p ps × (p.message ≡ name))) w (
            on_waits-All (λ p. Mem p ps × (p.message ≡ name)) name ps a
              (All-Mem (λ p. p.message ≡ name → Mem p ps × (p.message ≡ name)) ps (λ p m h. (m, h)))
              (rw e tt)) in
        inr (
          first,
          known.0.0,
          known.0.1,
          subst (λ z. All (λ q. q.message ≡ name → BeginsBy q.lamport_time z) ps) w
              (on_waits-first name ps a),
          rw (w, on_waits-communicator ps a) refl,
        )

any-count :
    (s : List ℕ) (x : ℕ) → any (λ y. y == x) s ≡ (if count (one_at x) s == 0 then false else true)
any-count [] x = refl
any-count (y ∷ s) x = ground (arith, any-count s x)

insert_id-count :
    (s : List ℕ) (x b : ℕ)
    → count (one_at b) s ≤ 1
    → count (one_at b) (insert_id s x) ≡ (if x == b then 1 else count (one_at b) s)
unfolding insert_id
insert_id-count s x b h = elim (ℕ_discrete x b) [
  | yes e ↦
      subst
        (λ z.
          count (one_at z) s ≤ 1
          → count (one_at z) (insert_id s x) ≡ (if x == z then 1 else count (one_at z) s))
        e (λ g. ground (arith, any-count s x)) h
  | no ne ↦ ground arith
]

-- Each source once.
sources-count :
    (ws : List Packet) (b : ℕ)
    → count (one_at b) (sources ws) ≡ (if any (λ p. p.source == b) ws then 1 else 0)
unfolding sources
sources-count [] b = refl
sources-count (p ∷ ws) b =
    ground (arith, sources-count ws b, insert_id-count (sources ws) p.source b)

sent_to-spread_nobody :
    (p : Packet) (ids : List ℕ) (b : ℕ) → count (one_at b) ids ≡ 0 → sent_to b (spread p ids) ≡ []
sent_to-spread_nobody p [] b h = refl
sent_to-spread_nobody p (x ∷ ids) b h = ground (arith, sent_to-spread_nobody p ids b)

sent_to-spread_once :
    (p : Packet) (ids : List ℕ) (b : ℕ)
    → count (one_at b) ids ≡ 1
    → sent_to b (spread p ids) ≡ p ∷ []
sent_to-spread_once p [] b h = absurd (omega arith)
sent_to-spread_once p (x ∷ ids) b h =
    ground (arith, sent_to-spread_once p ids b, sent_to-spread_nobody p ids b)

-- `notify_all` sends each process that waits on the condition variable one COND_NOTIFY, with the
-- name of the condition variable and the next stamp of the clock, and no packet to any other process.
pub notify_all-each :
    (a : Condition) (name : Bytes) (b : ℕ)
    → sent_to b (notify_all a name).1 ≡ (
        if any (λ p. p.source == b) (waiting name a)
        then notification a.communicator name ∷ []
        else [])
unfolding notify_all send tick touch
notify_all-each a name b = elim (Bool-cases (is_empty a.conditional_waits)) [
  | inl e ↦ rw e (nobody a.conditional_waits e)
  | inr e ↦
      let ids = sources (waiting name a) in
      let p = notification a.communicator name in
      rw e (
        ground (
          arith,
          sources-count (waiting name a) b,
          sent_to-spread_once p ids b,
          sent_to-spread_nobody p ids b,
        ))
]
  where
    nobody :
        (m : Assoc (List Packet))
        → is_empty m ≡ true
        → ◌≡◌ {A = List Packet} [] (
            if any (λ p. p.source == b) (Assoc.at [] name m)
            then notification a.communicator name ∷ []
            else [])
    nobody [] h = unfold Assoc.at Assoc.find in refl
    nobody (x ∷ m) h = cc
