-- ===== src/Condition/Transitions.antt =====
-- The steps of two processes in terms of what a wait means between them.
use distributed_monitor.Base.{
  ℕ, ◌+◌, ◌≤◌, ◌≡◌, ◌≢◌, ◌⊎◌, List, [], ◌∷◌, ◌++◌, arith, count, count-append, Bytes,
}
use distributed_monitor.Communication.Packet.{
  Packet, cond_wait, cond_wait_end, cond_wait_end_confirm, cond_notify,
}
use distributed_monitor.Exclusion.Defs.{weigh}
use distributed_monitor.Condition.System.{Member}
use distributed_monitor.Condition.Protocol.{
  asleep, ending, received, aims, IsBehind-append, IsBehind-zero, IsBehind-none, known, Pair,
}

module _ (name : Bytes) where
  module _ {i j : ℕ} {p q : Member} {there back : List Packet}
      (pr : Pair name i j p q there back) where
    open pr use {counts, calls_first, notes_first}
    open counts use {answered, once, idle, unknown, gone, done, aim}

    -- The steps of the process that waits.
    pub asker_quiet :
        (p' : Member) (l : List Packet)
        → count (weigh cond_wait_end_confirm name j) (received p'.stage)
          ≡ count (weigh cond_wait_end_confirm name j) (received p.stage)
        → asleep p'.stage ≡ asleep p.stage
        → ending p'.stage ≡ ending p.stage
        → count (weigh cond_wait name i) l ≡ 0
        → count (weigh cond_wait_end name i) l ≡ 0
        → Pair name i j p' q (there ++ l) back
    asker_quiet p' l er ea ee w e = record {
      counts =
          rw
            (
              er,
              ea,
              ee,
              count-append (weigh cond_wait name i) there l,
              count-append (weigh cond_wait_end name i) there l,
              w,
              e,
            )
            (ground (arith, answered, once, idle, unknown, gone, done, aim));
      calls_first =
          IsBehind-append (weigh cond_wait_end name i) (weigh cond_wait name i) there l calls_first
            (IsBehind-zero (weigh cond_wait_end name i) (weigh cond_wait name i) l w) (λ _. w);
      notes_first = notes_first;
    }

    pub asker_starts :
        (p' : Member) (l : List Packet)
        → asleep p.stage + ending p.stage ≡ 0
        → received p'.stage ≡ []
        → asleep p'.stage ≡ 1
        → ending p'.stage ≡ 0
        → count (weigh cond_wait name i) l ≡ 1
        → count (weigh cond_wait_end name i) l ≡ 0
        → Pair name i j p' q (there ++ l) back
    asker_starts p' l out er ea ee w e = record {
      counts =
          rw
            (
              er,
              ea,
              ee,
              count-append (weigh cond_wait name i) there l,
              count-append (weigh cond_wait_end name i) there l,
              w,
              e,
            )
            (ground (arith, answered, once, idle, unknown, gone, done, aim));
      calls_first =
          IsBehind-append (weigh cond_wait_end name i) (weigh cond_wait name i) there l calls_first
            (IsBehind-none (weigh cond_wait_end name i) (weigh cond_wait name i) l e)
            (λ ne. absurd (omega (arith, answered, ne)));
      notes_first = notes_first;
    }

    -- Nobody else owns the mutex, so no notification is aimed.
    pub asker_stops :
        (p' : Member) (l : List Packet)
        → asleep p.stage ≡ 1
        → ending p.stage ≡ 0
        → aims i q.stage ≡ 0
        → received p'.stage ≡ []
        → asleep p'.stage ≡ 0
        → ending p'.stage ≡ 1
        → count (weigh cond_wait name i) l ≡ 0
        → count (weigh cond_wait_end name i) l ≡ 1
        → Pair name i j p' q (there ++ l) back
    asker_stops p' l sa se na er ea ee w e = record {
      counts =
          rw
            (
              er,
              ea,
              ee,
              count-append (weigh cond_wait name i) there l,
              count-append (weigh cond_wait_end name i) there l,
              w,
              e,
            )
            (ground (arith, answered, once, idle, unknown, gone, done, na));
      calls_first =
          IsBehind-append (weigh cond_wait_end name i) (weigh cond_wait name i) there l calls_first
            (IsBehind-zero (weigh cond_wait_end name i) (weigh cond_wait name i) l w) (λ _. w);
      notes_first = notes_first;
    }

    pub asker_returns :
        (p' : Member)
        → count (weigh cond_wait_end_confirm name j) (received p.stage) ≡ 1
        → received p'.stage ≡ []
        → asleep p.stage ≡ 0
        → asleep p'.stage ≡ 0
        → ending p'.stage ≡ 0
        → ending p.stage ≡ 1
        → Pair name i j p' q there back
    asker_returns p' d er sa ea ee se = record {
      counts =
          rw (er, ea, ee)
            (ground (arith, answered, once, idle, unknown, gone, done, aim, d, sa, se));
      calls_first = calls_first;
      notes_first = notes_first;
    }

    -- The steps of the other process.
    pub replier_quiet :
        (q' : Member) (l : List Packet)
        → known name i q' ≤ known name i q
        → (aims i q'.stage ≢ 0
            → (aims i q.stage ≢ 0) ⊎ ((known name i q ≢ 0) × (ending p.stage ≡ 0)))
        → count (weigh cond_wait_end_confirm name j) l ≡ 0
        → (count (weigh cond_notify name j) l ≢ 0 → aims i q.stage ≢ 0)
        → Pair name i j p q' there (back ++ l)
    replier_quiet q' l k a c nt = record {
      counts =
          rw
            (
              count-append (weigh cond_wait_end_confirm name j) back l,
              count-append (weigh cond_notify name j) back l,
              c,
            )
            (ground (arith, answered, once, idle, unknown, gone, done, aim, k, a, nt));
      calls_first = calls_first;
      notes_first =
          IsBehind-append (weigh cond_wait_end_confirm name j) (weigh cond_notify name j) back l
            notes_first
            (IsBehind-none (weigh cond_wait_end_confirm name j) (weigh cond_notify name j) l c)
            (λ ne. ground (arith, answered, once, aim, nt, ne));
    }

  module _ {i j : ℕ} {p q : Member} {h : Packet} {there back : List Packet} where
    -- A packet that is handled leaves its channel.
    pub drop_there :
        Pair name i j p q (h ∷ there) back
        → weigh cond_wait name i h ≡ 0
        → weigh cond_wait_end name i h ≡ 0
        → Pair name i j p q there back
    drop_there pr w e = record {
      counts =
          let open_counts = pr.counts in
          ground (
            arith, open_counts.answered, open_counts.once, open_counts.idle, open_counts.unknown,
            open_counts.gone, open_counts.done, open_counts.aim, w, e,
          );
      calls_first = pr.calls_first.1;
      notes_first = pr.notes_first;
    }

    pub drop_back :
        Pair name i j p q there (h ∷ back)
        → weigh cond_wait_end_confirm name j h ≡ 0
        → Pair name i j p q there back
    drop_back pr c = record {
      counts =
          let open_counts = pr.counts in
          ground (
            arith, open_counts.answered, open_counts.once, open_counts.idle, open_counts.unknown,
            open_counts.gone, open_counts.done, open_counts.aim, c,
          );
      calls_first = pr.calls_first;
      notes_first = pr.notes_first.1;
    }

    -- The other process hears that the first waits.
    pub hear_call :
        (q' : Member)
        → Pair name i j p q (h ∷ there) back
        → weigh cond_wait name i h ≡ 1
        → weigh cond_wait_end name i h ≡ 0
        → aims i q'.stage ≡ aims i q.stage
        → Pair name i j p q' there back
    hear_call q' pr w e a = record {
      counts =
          let open_counts = pr.counts in
          ground (
            arith, open_counts.answered, open_counts.once, open_counts.idle, open_counts.unknown,
            open_counts.gone, open_counts.done, open_counts.aim, w, e, a,
          );
      calls_first = pr.calls_first.1;
      notes_first = pr.notes_first;
    }

    -- It hears that the wait is over, forgets it and confirms.
    pub hear_end :
        (q' : Member) (l : List Packet)
        → Pair name i j p q (h ∷ there) back
        → weigh cond_wait name i h ≡ 0
        → weigh cond_wait_end name i h ≡ 1
        → known name i q' ≡ 0
        → aims i q'.stage ≡ aims i q.stage
        → count (weigh cond_wait_end_confirm name j) l ≡ 1
        → count (weigh cond_notify name j) l ≡ 0
        → Pair name i j p q' there (back ++ l)
    hear_end q' l pr w e k a c nt = record {
      counts =
          let open_counts = pr.counts in
          rw
            (
              count-append (weigh cond_wait_end_confirm name j) back l,
              count-append (weigh cond_notify name j) back l,
              c,
              nt,
            )
            (ground (
              arith, open_counts.answered, open_counts.once, open_counts.idle, open_counts.unknown,
              open_counts.gone, open_counts.done, open_counts.aim, w, e, k, a, pr.calls_first.0,
            ));
      calls_first = pr.calls_first.1;
      notes_first =
          IsBehind-append (weigh cond_wait_end_confirm name j) (weigh cond_notify name j) back l
            pr.notes_first
            (IsBehind-zero (weigh cond_wait_end_confirm name j) (weigh cond_notify name j) l nt)
            (λ _. nt);
    }

    -- The confirmation comes in, after all notifications.
    pub hear_answer :
        (p' : Member)
        → Pair name i j p q there (h ∷ back)
        → weigh cond_wait_end_confirm name j h ≡ 1
        → weigh cond_notify name j h ≡ 0
        → asleep p'.stage ≡ asleep p.stage
        → ending p'.stage ≡ ending p.stage
        → count (weigh cond_wait_end_confirm name j) (received p'.stage)
          ≡ 1 + count (weigh cond_wait_end_confirm name j) (received p.stage)
        → Pair name i j p' q there back
    hear_answer p' pr c nt sa se d = record {
      counts =
          let open_counts = pr.counts in
          rw (d, sa, se)
            (ground (
              arith, open_counts.answered, open_counts.once, open_counts.idle, open_counts.unknown,
              open_counts.gone, open_counts.done, open_counts.aim, c, nt, pr.notes_first.0,
            ));
      calls_first = pr.calls_first;
      notes_first = pr.notes_first.1;
    }
