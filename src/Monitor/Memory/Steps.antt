-- ===== src/Monitor/Memory/Steps.antt =====
-- Each step of a run of two processes keeps what relates their variables.
use distributed_monitor.Base.{
  ℕ, ◌≤◌, ◌<◌, ◌^◌, ◌≡◌, ◌≢◌, sym, subst, ◌∙◌, inl, inr, true, false, List, ◌++◌, some, arith, ◌==◌,
  if◌then◌else◌, length, All, All-append, ==_refl, ==_ne, Bool-cases, Bytes,
}
use native.Mathlib.Decide.{ℕ_discrete}
use distributed_monitor.Communication.Packet.{Packet}
use distributed_monitor.Communication.Clock.{Delivery}
use distributed_monitor.Exclusion.System.{Process, change, update, Act, Owns}
use distributed_monitor.Exclusion.Network.{sent_to, post_lem, All-sent_to}
use distributed_monitor.Monitor.Fresh.{saves}
use distributed_monitor.Monitor.Sync.{Shared}
use distributed_monitor.Monitor.Memory.{Memory, after_hand, Saves, set_variables, Shares}
use distributed_monitor.Monitor.Memory.CatchUp.{
  Act-hand, catch_up, catch_up-after_hand, catch_up-append,
}
use distributed_monitor.Monitor.Memory.Sent.{Act-IsOneSync}
use distributed_monitor.Monitor.Memory.Still.{change-each, acts-caught_up}
use distributed_monitor.Monitor.Memory.Calm.{two_inv, calm_hand, owner_catch_up}
use distributed_monitor.Monitor.Memory.Kept.{IsSaved, Agrees, Shares-Run, owner-written}
use distributed_monitor.Monitor.Memory.Carried.{
  catch_up-IsValid, after_hand-IsValid, after_hand-IsOther, sends-IsSaved, saved_last,
}

module _ {V : Type 0} (shared : Shared V) (m : Bytes) (IsValid : V → Type 0)
    (short : length m ≤ 127)
    (law : (v w : V) → IsValid v → IsValid w → shared.restore_state (shared.save_state v) w ≡ v)
    {names : List Bytes} {k : ℕ} {x : Memory V} (fits : k < 2 ^ 64)
    (r : Shares shared m IsValid names k x) (agrees : Agrees shared m IsValid x) where
  pub writes-Agrees :
      (i : ℕ) (v : V)
      → i < 2
      → Owns m (x.system.process i)
      → IsValid v
      → Agrees shared m IsValid (record x {
        variables = set_variables shared m x.variables i v;
        written = v;
        unsaved = true;
      })
  writes-Agrees i v li o h = record {
    valid =
        λ j lj. elim (Bool-cases (i == j)) [ inl e ↦ rw e h | inr e ↦ rw e (agrees.valid j lj) ];
    on_the_way = agrees.on_the_way;
    held = agrees.held;
    saved = λ y j ly lj ne u. absurd (cc);
    pending = λ u. (i, li, o, rw (==_refl i));
  }

  module _ (i : ℕ) {p : Process} {out : List Delivery} (li : i < 2)
      (a : Act 2 (x.system.process i) p out)
      (sends : saves out ≡ true → Owns m (x.system.process i) × Saves shared m (x.variables i) out)
      (keeps : x.unsaved ≡ true → Owns m (x.system.process i) → Owns m p) where
    -- The variables of the process after the step.
    abbrev after : V
    after = after_hand shared m (x.system.process i).hand p.hand (x.variables i)

    acts-held : (packet : Packet) → p.hand ≡ some packet → IsSaved shared m IsValid packet
    acts-held packet e = elim (Act-hand a) [
      | inl same ↦ agrees.held i packet li (sym same ∙ e)
      | inr (q, h, h') ↦ absurd (cc)
    ]

    acts-on_the_way :
        (j y : ℕ)
        → j < 2
        → y < 2
        → All (IsSaved shared m IsValid) ((change x.system i p out).channel j y)
    acts-on_the_way j y lj ly =
        rw (post_lem i j y out x.system.channel) (elim (Bool-cases (j == i)) [
          | inr e ↦ rw e (agrees.on_the_way j y lj ly)
          | inl e ↦ rw e (
              All-append (IsSaved shared m IsValid) (x.system.channel j y) (sent_to y out)
                (agrees.on_the_way j y lj ly)
                (All-sent_to (IsSaved shared m IsValid) y out (
                  sends-IsSaved shared m IsValid short law (x.variables i) out (agrees.valid i li)
                    (λ e. (sends e).1))))
        ])

    -- Where the process sends a SYNC, it has what was last written.
    acts-mover :
        (j : ℕ)
        → j < 2
        → i ≢ j
        → saves out ≡ true
        → catch_up shared m after p.hand (x.system.channel j i) ≡ x.written
    acts-mover j lj ne e =
        catch_up-after_hand shared m (x.variables i) (x.system.process i).hand p.hand
          (x.system.channel j i) (Act-hand a)
        ∙ owner_catch_up fits (Shares-Run shared m IsValid r) shared i j (x.variables i) li lj ne
            (sends e).0
        ∙ owner-written shared m IsValid fits r agrees i li (sends e).0

    -- And the other process is to have it.
    acts-other :
        (y : ℕ)
        → y < 2
        → i ≢ y
        → saves out ≡ true
        → catch_up shared m
            (x.variables y)
            (x.system.process y).hand
            (x.system.channel i y ++ sent_to y out)
          ≡ x.written
    acts-other y ly ne e =
        let before =
          catch_up shared m (x.variables y) (x.system.process y).hand (x.system.channel i y) in
        let valid =
          catch_up-IsValid shared m IsValid short law (x.variables y) (x.system.process y).hand
            (x.system.channel i y) (λ q. agrees.held y q ly) (agrees.on_the_way i y li ly)
            (agrees.valid y ly) in
        catch_up-append shared m (x.variables y) (x.system.process y).hand (x.system.channel i y)
          (sent_to y out)
        ∙ saved_last shared m IsValid short law (x.system.process i) p out i y (x.variables i)
            before
            (Act-IsOneSync a
              (ground (arith, ((two_inv fits (Shares-Run shared m IsValid r)).local i li).rank, li))
              e)
            ((two_inv fits (Shares-Run shared m IsValid r)).local i li).rank li ly ne (sends e).1
            (agrees.valid i li) valid
        ∙ owner-written shared m IsValid fits r agrees i li (sends e).0

    acts-pending :
        (if saves out then false else x.unsaved) ≡ true
        → (y : ℕ) × (y < 2)
          × Owns m (update x.system.process i p y)
          × (set_variables shared m x.variables i after y ≡ x.written)
    acts-pending u =
        let unsaved : x.unsaved ≡ true = ground (arith, u) in
        let (y, ly, o, same) = agrees.pending unsaved in
        elim (ℕ_discrete i y) [
          | no ne ↦ (y, ly, rw (==_ne i y ne) o, rw (==_ne i y ne) same)
          | yes e ↦
              let own : Owns m (x.system.process i) =
                subst (λ z. Owns m (x.system.process z)) (sym e) o in
              (
                i,
                li,
                rw (==_refl i) (keeps unsaved own),
                rw (==_refl i) (
                    after_hand-IsOther shared m IsValid short law (x.variables i)
                      (x.system.process i).hand p.hand
                      (λ q. calm_hand fits (Shares-Run shared m IsValid r) i q li own)
                    ∙ owner-written shared m IsValid fits r agrees i li own),
              )
        ]

    acts-saved :
        (y j : ℕ)
        → y < 2
        → j < 2
        → y ≢ j
        → (if saves out then false else x.unsaved) ≡ false
        → catch_up shared m
            (set_variables shared m x.variables i after y)
            (update x.system.process i p y).hand
            ((change x.system i p out).channel j y)
          ≡ x.written
    acts-saved y j ly lj ne u = elim (Bool-cases (saves out)) [
      | inl e ↦
          change-each shared m (two_inv fits (Shares-Run shared m IsValid r)) x.variables i p out li
            after (λ z w. x.written) (λ z lz nz. acts-mover z lz nz e)
            (λ z lz nz. acts-other z lz nz e) y j ly lj ne
      | inr e ↦
          acts-caught_up shared m (two_inv fits (Shares-Run shared m IsValid r)) x.variables i li a
            e y j ly lj ne
          ∙ agrees.saved y j ly lj ne (rw e at u)
    ]

    pub acts-Agrees : Agrees shared m IsValid (record {
      system = change x.system i p out;
      variables = set_variables shared m x.variables i after;
      written = x.written;
      unsaved = if saves out then false else x.unsaved;
    })
    acts-Agrees = record {
      valid = λ j lj. elim (Bool-cases (i == j)) [
        | inl e ↦ rw e (
            after_hand-IsValid shared m IsValid short law (x.variables i) (x.system.process i).hand
              p.hand (λ q. agrees.held i q li) (agrees.valid i li))
        | inr e ↦ rw e (agrees.valid j lj)
      ];
      on_the_way = acts-on_the_way;
      held = λ y packet ly. elim (Bool-cases (i == y)) [
        | inl e ↦ rw e (acts-held packet)
        | inr e ↦ rw e (agrees.held y packet ly)
      ];
      saved = acts-saved;
      pending = acts-pending;
    }
