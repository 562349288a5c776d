-- ===== src/Condition/Effects.antt =====
-- What handling a packet of each type is for all processes.
use distributed_monitor.Base.{
  ℕ, ◌+◌, ◌<◌, ◌≡◌, ◌≢◌, ◌⊎◌, refl, sym, ap, subst, ◌∙◌, Bool, true, false, List, [], ◌∷◌,
  append-nil, arith, ◌==◌, if◌then◌else◌, any, some_inj, Bool-cases, count, All, Bytes,
  bytes_eq_refl, inl, inr, some,
}
use distributed_monitor.Communication.Packet.{
  MessageType, type_eq, Packet, cond_wait, cond_wait_end, cond_wait_end_confirm, cond_notify,
  insert, packet_eq,
}
use distributed_monitor.Communication.Clock.{Delivery, tick, send, send_one}
use distributed_monitor.Exclusion.Defs.{weigh, IsAnswer}
use distributed_monitor.Exclusion.Network.{count-sent_to-spread, sent_to, spread}
use distributed_monitor.Exclusion.Weights.{count-insert}
use distributed_monitor.Condition.Algorithm.{waiting, on_wait, on_wait_end, on_confirmation}
use distributed_monitor.Condition.System.{
  Stage, outside, notifying, sleeping, confirming, Member, awaits_notify, on_stage,
}
use distributed_monitor.Condition.Protocol.{from, received, asleep, ending}
use distributed_monitor.Condition.Transitions.{
  asker_quiet, replier_quiet, drop_there, drop_back, hear_call, hear_end, hear_answer,
}
use distributed_monitor.Condition.Members.{
  Kind, call, end, answer, note, IsOurs, Local, sent_to-spread_zero, All-sent_to-spread,
  waiting-on_wait, waiting-on_wait_end,
}
use distributed_monitor.Condition.Acts.{holds, ours}
use distributed_monitor.Condition.Handle.{answered, noted, result, packet, weigh-packet, Effects}

module _ (name : Bytes) where
  module _ (n i j time : ℕ) (ne : i ≢ j) (lj : j < n) {m : Member} (l : Local name n i m) where
    call-Effects :
        Effects name n i j
          (packet name time j call)
          m
          (record m { condition = on_wait m.condition (packet name time j call) })
          []
    unfolding on_wait
    call-Effects = record {
      local = record {
        rank = l.rank;
        size = l.size;
        others = l.others;
        registered = l.registered;
        strangers = omega (
          arith,
          waiting-on_wait (from i) m.condition (packet name time j call),
          l.strangers,
          strange,
        );
        not_self = l.not_self;
        collected = l.collected;
      };
      own = λ b. tt;
      silent = refl;
      held = refl;
      asker_first = λ {q} {there} pr.
          asker_quiet name
            (drop_back name pr (weigh-packet name cond_wait_end_confirm time j j call)) _ [] refl
            refl refl refl refl;
      asker_rest = λ h pr. asker_quiet name pr _ [] refl refl refl refl refl;
      replier_first = λ {q} {there} {back} pr. rw append-nil (
          hear_call name _ pr (weigh-packet name cond_wait time j j call ∙ here)
            (weigh-packet name cond_wait_end time j j call) refl);
      replier_rest = λ {x} h pr.
          replier_quiet name pr _ []
            (omega (
              arith,
              waiting-on_wait (from x) m.condition (packet name time j call),
              elsewhere x h,
            ))
            (λ z. inl z) refl (λ z. absurd (z refl));
    }
      where
        strange : from i (packet name time j call) ≡ 0
        strange = ground (arith, ne)

        here : ◌≡◌ {A = ℕ} (if j == j then 1 else 0) 1
        here = ground arith

        elsewhere : (x : ℕ) → x ≢ j → from x (packet name time j call) ≡ 0
        elsewhere x h = ground (arith, h)

    -- The confirmation goes to the process that ended its wait.
    forgets :
        (b : ℕ)
        → count (from b) (waiting name (on_wait_end m.condition (packet name time j end)).0) ≡ 0
    forgets b = ap (count (from b)) (waiting-on_wait_end m.condition (packet name time j end))

    abbrev confirmation : ℕ → List Packet
    confirmation b = sent_to b (spread (ours name n i m cond_wait_end_confirm) (j ∷ []))

    confirmation_weight :
        (b : ℕ) (t : MessageType)
        → type_eq cond_wait_end_confirm t ≡ false
        → count (weigh t name i) (confirmation b) ≡ 0
    confirmation_weight b t h =
        count-sent_to-spread (weigh t name i) b (ours name n i m cond_wait_end_confirm) (j ∷ [])
          (ground (arith, h))

    confirmation_none : (b : ℕ) → b ≢ j → confirmation b ≡ []
    confirmation_none b h =
        sent_to-spread_zero b (ours name n i m cond_wait_end_confirm) (j ∷ []) (ground (arith, h))

    confirmation_first : count (weigh cond_wait_end_confirm name i) (confirmation j) ≡ 1
    confirmation_first = ground (arith, l.rank, bytes_eq_refl name)

    end-Effects :
        Effects name n i j
          (packet name time j end)
          m
          (record m { condition = (on_wait_end m.condition (packet name time j end)).0 })
          (on_wait_end m.condition (packet name time j end)).1
    unfolding on_wait_end send_one send tick
    end-Effects = record {
      local = record {
        rank = l.rank;
        size = l.size;
        others = l.others;
        registered = l.registered;
        strangers = forgets i;
        not_self = l.not_self;
        collected = l.collected;
      };
      own = λ b.
          All-sent_to-spread (IsOurs name i) b (ours name n i m cond_wait_end_confirm) (j ∷ [])
            (l.rank, refl, answer, refl);
      silent = confirmation_none i ne;
      held = refl;
      asker_first = λ pr.
          asker_quiet name
            (drop_back name pr (weigh-packet name cond_wait_end_confirm time j j end)) _
            (confirmation j) refl refl refl (confirmation_weight j cond_wait refl)
            (confirmation_weight j cond_wait_end refl);
      asker_rest = λ {y} h pr.
          asker_quiet name pr _ (confirmation y) refl refl refl
            (confirmation_weight y cond_wait refl) (confirmation_weight y cond_wait_end refl);
      replier_first = λ pr.
          hear_end name _ (confirmation j) pr (weigh-packet name cond_wait time j j end)
            (weigh-packet name cond_wait_end time j j end ∙ here) (forgets j) refl
            confirmation_first (confirmation_weight j cond_notify refl);
      replier_rest = λ {x} h pr.
          replier_quiet name pr _ (confirmation x) (omega (arith, forgets x)) (λ z. inl z)
            (ap (count (weigh cond_wait_end_confirm name i)) (confirmation_none x h))
            (λ z. absurd (z (confirmation_weight x cond_notify refl)));
    }
      where
        here : ◌≡◌ {A = ℕ} (if j == j then 1 else 0) 1
        here = ground arith

    note-Effects : Effects name n i j (packet name time j note) m m []
    note-Effects = record {
      local = l;
      own = λ b. tt;
      silent = refl;
      held = refl;
      asker_first = λ pr.
          asker_quiet name
            (drop_back name pr (weigh-packet name cond_wait_end_confirm time j j note)) _ [] refl
            refl refl refl refl;
      asker_rest = λ h pr. asker_quiet name pr _ [] refl refl refl refl refl;
      replier_first = λ pr.
          replier_quiet name
            (drop_there name pr (weigh-packet name cond_wait time j j note)
              (weigh-packet name cond_wait_end time j j note))
            _ [] (omega arith) (λ z. inl z) refl (λ z. absurd (z refl));
      replier_rest = λ {x} h pr.
          replier_quiet name pr _ [] (omega arith) (λ z. inl z) refl (λ z. absurd (z refl));
    }

    added :
        (ps : List Packet) (b : ℕ)
        → (count (weigh cond_wait_end_confirm name b) ps ≡ 0)
          ⊎ (weigh cond_wait_end_confirm name b (packet name time j answer) ≡ 0)
        → count
            (weigh cond_wait_end_confirm name b)
            (on_confirmation ps (packet name time j answer))
          ≡ weigh cond_wait_end_confirm name b (packet name time j answer)
            + count (weigh cond_wait_end_confirm name b) ps
    unfolding on_confirmation
    added ps b h = count-insert cond_wait_end_confirm name b ps (packet name time j answer) h

    All-on_confirmation :
        (ps : List Packet)
        → All (IsAnswer cond_wait_end_confirm n i name) ps
        → All
            (IsAnswer cond_wait_end_confirm n i name)
            (on_confirmation ps (packet name time j answer))
    unfolding on_confirmation insert
    All-on_confirmation ps h = elim (Bool-cases (any (packet_eq (packet name time j answer)) ps)) [
      | inl e ↦ rw e h
      | inr e ↦ rw e ((lj, λ z. ne (sym z), refl, bytes_eq_refl name), h)
    ]

    answer-Effects :
        (ps : List Packet)
        → m.stage ≡ confirming ps
        → Effects name n i j
            (packet name time j answer)
            m
            (record m { stage = confirming (on_confirmation ps (packet name time j answer)) })
            []
    answer-Effects ps e = record {
      local = record {
        rank = l.rank;
        size = l.size;
        others = l.others;
        registered = l.registered;
        strangers = l.strangers;
        not_self = refl;
        collected =
            All-on_confirmation ps (
              subst (λ z. All (IsAnswer cond_wait_end_confirm n i name) (received z)) e
                l.collected);
      };
      own = λ b. tt;
      silent = refl;
      held = ap holds (sym e);
      asker_first = λ {q} {there} {back} pr. rw append-nil (
          hear_answer name _ pr (weigh-packet name cond_wait_end_confirm time j j answer ∙ here)
            (weigh-packet name cond_notify time j j answer) (ap asleep (sym e)) (ap ending (sym e))
            (omega (
              arith,
              added ps j (
                  inl
                    (none_yet (count (weigh cond_wait_end name i) there) back pr.counts.answered)),
              weigh-packet name cond_wait_end_confirm time j j answer ∙ here,
              stored j,
            )));
      asker_rest = λ {y} h pr.
          asker_quiet name pr _ []
            (omega (arith, added ps y (inr (elsewhere y h)), elsewhere y h, stored y))
            (ap asleep (sym e)) (ap ending (sym e)) refl refl;
      replier_first = λ pr.
          replier_quiet name
            (drop_there name pr (weigh-packet name cond_wait time j j answer)
              (weigh-packet name cond_wait_end time j j answer))
            _ [] (omega arith) (λ z. absurd (z refl)) refl (λ z. absurd (z refl));
      replier_rest = λ {x} h pr.
          replier_quiet name pr _ [] (omega arith) (λ z. absurd (z refl)) refl
            (λ z. absurd (z refl));
    }
      where
        here : ◌≡◌ {A = ℕ} (if j == j then 1 else 0) 1
        here = ground arith

        stored :
            (b : ℕ)
            → count (weigh cond_wait_end_confirm name b) (received m.stage)
              ≡ count (weigh cond_wait_end_confirm name b) ps
        stored b = ap (λ z. count (weigh cond_wait_end_confirm name b) (received z)) e

        elsewhere :
            (y : ℕ) → y ≢ j → weigh cond_wait_end_confirm name y (packet name time j answer) ≡ 0
        elsewhere y h = ground (arith, h)

        none_yet :
            (ends : ℕ) (back : List Packet)
            → ends
                + (count (weigh cond_wait_end_confirm name j) (packet name time j answer ∷ back)
                    + count (weigh cond_wait_end_confirm name j) (received m.stage))
              ≡ ending m.stage
            → count (weigh cond_wait_end_confirm name j) ps ≡ 0
        none_yet ends back h = omega (
          arith,
          h,
          weigh-packet name cond_wait_end_confirm time j j answer ∙ here,
          stored j,
          ap ending e,
        )

  from_some :
      {n i j : ℕ} {p : Packet} {m : Member} (r : Member × List Delivery) {m' : Member}
      {out : List Delivery}
      → Effects name n i j p m r.0 r.1
      → some r ≡ some (m', out)
      → Effects name n i j p m m' out
  from_some {n} {i} {j} {p} {m} r {m'} {out} h e =
      subst (λ z. Effects name n i j p m z.0 z.1) (some_inj r (m', out) e) h

  note_result :
      {n i j time : ℕ} {m m' : Member} {out : List Delivery}
      → Effects name n i j (packet name time j note) m m []
      → (b : Bool) → noted m b ≡ some (m', out)
      → Effects name n i j (packet name time j note) m m' out
  note_result {m} h true e = from_some (m, []) h e
  note_result h false e = cc

  answer_result :
      {n i j time : ℕ} {m m' : Member} {out : List Delivery}
      → i ≢ j
      → j < n
      → Local name n i m
      → (stage : Stage) → m.stage ≡ stage
      → answered m (on_stage m (packet name time j answer) stage) ≡ some (m', out)
      → Effects name n i j (packet name time j answer) m m' out
  answer_result ne lj l outside se e = cc
  answer_result ne lj l (notifying rs) se e = cc
  answer_result ne lj l sleeping se e = cc
  answer_result {n} {i} {j} {time} {m} ne lj l (confirming ps) se e =
      from_some
        (record m { stage = confirming (on_confirmation ps (packet name time j answer)) }, [])
        (answer-Effects n i j time ne lj l ps se) e

  -- What handling a packet is, whatever its type.
  pub result-Effects :
      (n i j time : ℕ) (k : Kind) {m m' : Member} {out : List Delivery}
      → i ≢ j
      → j < n
      → Local name n i m
      → result m (packet name time j k) k ≡ some (m', out)
      → Effects name n i j (packet name time j k) m m' out
  result-Effects n i j time call ne lj l e = from_some _ (call-Effects n i j time ne lj l) e
  result-Effects n i j time end ne lj l e = from_some _ (end-Effects n i j time ne lj l) e
  result-Effects n i j time note {m} ne lj l e =
      note_result (note-Effects n i j time ne lj l) (awaits_notify m.stage) e
  result-Effects n i j time answer {m} ne lj l e = answer_result ne lj l m.stage refl e
