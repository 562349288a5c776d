-- ===== src/Monitor/Fresh/Steps.antt =====
-- A step of a process keeps what is fresh between it and another one.
use distributed_monitor.Base.{
  ℕ, ◌≡◌, ◌≢◌, refl, ap, true, false, List, [], ◌∷◌, ◌++◌, none, some, arith, if◌then◌else◌, count,
  count-append, Bytes, bytes_eq, Bool-cases, inl, inr, ◌⊎◌,
}
use distributed_monitor.Base.Assoc
use distributed_monitor.Communication.Packet.{mutex_agreement, Packet, insert}
use distributed_monitor.Communication.Clock.{accept, Delivery, send, send_one, send_others}
use distributed_monitor.Exclusion.Algorithm.{
  are_agreements_complete, send_agreement, queue, dequeue, defer,
}
use distributed_monitor.Exclusion.System.{
  acquiring, Process, taken, Act, acquire, acquired, release, answer, released, handled, other_send,
  Owns,
}
use distributed_monitor.Exclusion.Defs.{weigh, collected, agreements}
use native.Mathlib.Decide.{ℕ_discrete}
use distributed_monitor.Exclusion.Network.{count-sent_to-spread, sent_to}
use distributed_monitor.Exclusion.Weights.{count-insert_le}
use distributed_monitor.Exclusion.Handler.{Outcome, skip, grant, delay, collect, on_packet-Outcome}
use distributed_monitor.Condition.Protocol.{IsBehind-append, IsBehind-zero, IsBehind-none}
use distributed_monitor.Monitor.Fresh.{saves, synced, IsFresh}

abbrev agreed_in : Bytes → ℕ → Process → ℕ
agreed_in m j p = count (weigh mutex_agreement m j) (collected m p.main)

module _ {m : Bytes} {j : ℕ} {p : Process} {back : List Packet} (fr : IsFresh m j p back) where
  open fr use {behind, held, agreed, owned}

  IsFresh_kept :
      (p' : Process)
      → p'.hand ≡ p.hand
      → (agreed_in m j p' ≢ 0 → agreed_in m j p ≢ 0)
      → (Owns m p' → Owns m p)
      → IsFresh m j p' back
  IsFresh_kept p' e c o = record {
    behind = behind;
    held = rw e held;
    agreed = λ h. rw e (agreed (c h));
    owned = λ h. rw e (owned (o h));
  }

  IsFresh_handled :
      (p' : Process) (packet : Packet)
      → p.hand ≡ some packet
      → p'.hand ≡ none
      → (agreed_in m j p' ≢ 0 → (agreed_in m j p ≢ 0) ⊎ (weigh mutex_agreement m j packet ≢ 0))
      → (Owns m p' → Owns m p)
      → IsFresh m j p' back
  IsFresh_handled p' packet e e' c o = record {
    behind = behind;
    held = λ h. absurd (h (rw e' refl));
    agreed = λ h. elim (c h) [
      | inl g ↦ rw e' (omega (arith, agreed g))
      | inr g ↦ rw e' (omega (arith, (rw e at held) g))
    ];
    owned = λ h. rw e' (omega (arith, owned (o h)));
  }

  -- An agreement of somebody else adds nothing to what is in from `j`.
  collect_none :
      (name : Bytes) (ag : List Packet) (packet : Packet)
      → p.main ≡ acquiring name ag
      → weigh mutex_agreement m j packet ≡ 0
      → agreed_in m j p ≡ 0
      → count (weigh mutex_agreement m j) (if bytes_eq name m then insert ag packet else []) ≡ 0
  collect_none name ag packet g w y = ground (
    arith,
    w,
    y,
    ap (λ z. count (weigh mutex_agreement m j) (collected m z)) g,
    count-insert_le (weigh mutex_agreement m j) ag packet,
  )

  Outcome-IsFresh :
      {packet : Packet} {p' : Process} {out : List Delivery}
      → p.hand ≡ some packet
      → Outcome p packet p' out
      → IsFresh m j p' back
  unfolding send_agreement defer
  Outcome-IsFresh e (skip h) =
      IsFresh_handled _ _ e refl (λ g. inl g)
        (λ o. record { stamp = o.stamp; queued = o.queued; settled = o.settled })
  Outcome-IsFresh e (grant t h) =
      IsFresh_handled _ _ e refl (λ g. inl g)
        (λ o. record { stamp = o.stamp; queued = o.queued; settled = o.settled })
  Outcome-IsFresh e (delay t h) =
      IsFresh_handled _ _ e refl (λ g. inl g)
        (λ o. record { stamp = o.stamp; queued = o.queued; settled = o.settled })
  Outcome-IsFresh {packet} e (collect {name} {agreements = ag} g t) =
      IsFresh_handled (record p { main = acquiring name (insert ag packet); hand = none }) packet e
        refl
        (λ h. elim (ℕ_discrete (weigh mutex_agreement m j packet) 0) [
          | no w ↦ inr w
          | yes w ↦ inl (λ y. h (collect_none name ag packet g w y))
        ])
        (λ o. record { stamp = o.stamp; queued = o.queued; settled = rw g o.settled })

  -- What is queued after another mutex was queued or released was queued before.
  assigned :
      (name : Bytes) (u : ℕ) {t : ℕ}
      → Assoc.find m (Assoc.assign name u p.exclusion.queued_mutexes) ≡ some t
      → bytes_eq name m ≡ false
      → Assoc.find m p.exclusion.queued_mutexes ≡ some t
  assigned name u h b = rw (Assoc.find-assign name m u p.exclusion.queued_mutexes, b) at h

  erased :
      (name : Bytes) {t : ℕ}
      → Assoc.find m (Assoc.erase name p.exclusion.queued_mutexes) ≡ some t
      → (Assoc.find m p.exclusion.queued_mutexes ≡ some t) × (bytes_eq name m ≡ false)
  erased name h = elim (Bool-cases (bytes_eq name m)) [
    | inl b ↦
        (let k : none ≡ some _ = rw (Assoc.find-erase name m p.exclusion.queued_mutexes, b) at h in
          cc)
    | inr b ↦ (rw (Assoc.find-erase name m p.exclusion.queued_mutexes, b) at h, b)
  ]

  pub Act-IsFresh :
      {n : ℕ} {p' : Process} {out : List Delivery}
      → ((name : Bytes) (ag : List Packet)
          → p.main ≡ acquiring name ag
          → are_agreements_complete p.exclusion ag ≡ true
          → bytes_eq name m ≡ true
          → count (weigh mutex_agreement m j) ag ≡ 1)
      → Act n p p' out
      → IsFresh m j p' back
  unfolding queue dequeue send_agreement
  Act-IsFresh full (acquire name e f) =
      IsFresh_kept _ refl (λ h. absurd (h (ground arith)))
        (λ o. record {
          stamp = o.stamp;
          queued = assigned name _ o.queued o.settled;
          settled = rw e refl;
        })
  Act-IsFresh full (acquired {name} {agreements = ag} e c) = record {
    behind = behind;
    held = held;
    agreed = λ h. absurd (h refl);
    owned = λ o. elim (Bool-cases (bytes_eq name m)) [
      | inl b ↦ agreed (λ z. absurd (
          ground (
            arith,
            z,
            b,
            full name ag e c b,
            ap (λ y. count (weigh mutex_agreement m j) (collected m y)) e,
          )))
      | inr b ↦ owned (record { stamp = o.stamp; queued = o.queued; settled = rw e b })
    ];
  }
  Act-IsFresh full (release name e q) =
      IsFresh_kept _ refl (λ h. absurd (h refl))
        (λ o. record { stamp = o.stamp; queued = o.queued; settled = rw e refl })
  Act-IsFresh full (answer {name} e) =
      IsFresh_kept _ refl (λ h. absurd (h refl))
        (λ o. record { stamp = o.stamp; queued = o.queued; settled = rw e o.settled })
  Act-IsFresh full (released {name} e) =
      IsFresh_kept _ refl (λ h. absurd (h refl))
        (λ o. record {
          stamp = o.stamp;
          queued = (erased name o.queued).0;
          settled = rw e (erased name o.queued).1;
        })
  Act-IsFresh full (handled f e h) = Outcome-IsFresh e (on_packet-Outcome p _ h)
  Act-IsFresh full (other_send t message r lt ne a b) =
      IsFresh_kept _ refl (λ h. h)
        (λ o. record { stamp = o.stamp; queued = o.queued; settled = o.settled })

  -- What `j` sends: no saved state, or saved states while no agreement is on the way.
  pub IsFresh_sent :
      (l : List Packet)
      → (count (synced j) l ≡ 0)
        ⊎ ((count (weigh mutex_agreement m j) l ≡ 0)
            × (agreements (weigh mutex_agreement m j) m p back ≡ 0)
            × (Owns m p → ◌≡◌ {A = ℕ} 1 0))
      → IsFresh m j p (back ++ l)
  IsFresh_sent l (inl z) = record {
    behind =
        IsBehind-append (weigh mutex_agreement m j) (synced j) back l behind
          (IsBehind-zero (weigh mutex_agreement m j) (synced j) l z) (λ _. z);
    held = λ h. omega (arith, held h, z, count-append (synced j) back l);
    agreed = λ h. omega (arith, agreed h, z, count-append (synced j) back l);
    owned = λ h. omega (arith, owned h, z, count-append (synced j) back l);
  }
  IsFresh_sent l (inr (z, none_, away)) = record {
    behind =
        IsBehind-append (weigh mutex_agreement m j) (synced j) back l behind
          (IsBehind-none (weigh mutex_agreement m j) (synced j) l z)
          (λ ne. absurd (omega (arith, ne, none_)));
    held = λ h. absurd (omega (arith, h, none_));
    agreed = λ h. absurd (omega (arith, h, none_));
    owned = λ h. absurd (omega (arith, away h));
  }

-- The receiving thread takes a packet of `j`, or of another process.
pub taken-IsFresh :
    {m : Bytes} {j : ℕ} {p : Process} {packet : Packet} {rest : List Packet}
    → IsFresh m j p (packet ∷ rest)
    → p.hand ≡ none
    → IsFresh m j (taken p packet) rest
unfolding accept
taken-IsFresh fr e = record {
  behind = fr.behind.1;
  held = fr.behind.0;
  agreed = λ h. omega (arith, (rw e at fr.agreed) h);
  owned = λ o. omega (
    arith,
    (rw e at fr.owned) (record { stamp = o.stamp; queued = o.queued; settled = o.settled }),
  );
}

pub taken_other-IsFresh :
    {m : Bytes} {j : ℕ} {p : Process} {packet : Packet} {back : List Packet}
    → IsFresh m j p back
    → p.hand ≡ none
    → packet.source ≢ j
    → IsFresh m j (taken p packet) back
unfolding accept
taken_other-IsFresh {m} {j} {packet} fr e ne = record {
  behind = fr.behind;
  held = λ h. absurd (h (ground (arith, ne)));
  agreed = λ h. omega (arith, (rw e at fr.agreed) h, elsewhere);
  owned = λ o. omega (
    arith,
    (rw e at fr.owned) (record { stamp = o.stamp; queued = o.queued; settled = o.settled }),
    elsewhere,
  );
}
  where
    elsewhere : synced j packet ≡ 0
    elsewhere = ground (arith, ne)

-- The packets to one process are some of those that are sent.
pub synced-saves :
    (j b : ℕ) (out : List Delivery) → saves out ≡ false → count (synced j) (sent_to b out) ≡ 0
synced-saves j b [] h = refl
synced-saves j b (d ∷ ds) h = ground (arith, h, synced-saves j b ds)

-- A step that sends a SYNC sends no agreement.
pub Act-saves :
    {n : ℕ} {q q' : Process} {out : List Delivery} (m : Bytes) (j b : ℕ)
    → Act n q q' out
    → saves out ≡ true
    → count (weigh mutex_agreement m j) (sent_to b out) ≡ 0
unfolding queue dequeue send_agreement send_one send_others send defer
Act-saves m j b (acquire name e f) h = count-sent_to-spread (weigh mutex_agreement m j) b _ _ refl
Act-saves m j b (acquired e c) h = refl
Act-saves m j b (release name e q) h = refl
Act-saves m j b (answer e) h = cc
Act-saves m j b (released e) h = refl
Act-saves {q} m j b (handled f e h) g = outcome (on_packet-Outcome q _ h) g
  where
    outcome :
        {packet : Packet} {q' : Process} {out : List Delivery}
        → Outcome q packet q' out
        → saves out ≡ true
        → count (weigh mutex_agreement m j) (sent_to b out) ≡ 0
    outcome (skip h) g = refl
    outcome (grant t h) g = cc
    outcome (delay t h) g = refl
    outcome (collect c t) g = refl
Act-saves {q = q} m j b (other_send t message r lt ne x y) h =
    count-sent_to-spread (weigh mutex_agreement m j) b (send q.exclusion.communicator t message r).1
      r (ground (arith, y))
