-- ===== src/Monitor/Fresh/Owner.antt =====
-- What the owner of the mutex and a process that acquires it are to each other.
use distributed_monitor.Base.{
  ℕ, ◌≤◌, ◌<◌, ◌≡◌, ◌≢◌, refl, sym, subst, true, false, none, some, arith, Bytes, bytes_eq,
  bytes_eq_iff, Option-cases, Bool-cases, inl, inr, ◌⊎◌,
}
use distributed_monitor.Communication.Packet.{mutex_request, mutex_agreement}
use distributed_monitor.Exclusion.System.{
  Main, running, acquiring, releasing, Process, System, Owns,
}
use distributed_monitor.Exclusion.Defs.{
  weigh, wants, is_leaving, agreements, open_requests, queued, IsMain, Inv,
}
use native.Mathlib.Decide.{ℕ_discrete}
use distributed_monitor.Exclusion.Safety.{settled-quiet}

-- A process that waits has queued, and does not leave.
wants-queued :
    (n i : ℕ) (m : Bytes) (p : Process) (main : Main)
    → IsMain n i p main
    → wants m main ≢ 0
    → (is_leaving m main ≡ false) × (t : ℕ) × (queued m p ≡ some t)
wants-queued n i m p running h w = absurd (w refl)
wants-queued n i m p (releasing name rest) h w = absurd (w refl)
wants-queued n i m p (acquiring name ag) h w = elim (Option-cases (queued m p)) [
  | inr (t, e) ↦ (refl, t, e)
  | inl e ↦
      absurd (h.1 (subst (λ z. queued z p ≡ none) (sym (named (Bool-cases (bytes_eq name m)))) e))
]
  where
    named : ((bytes_eq name m ≡ true) ⊎ (bytes_eq name m ≡ false)) → name ≡ m
    named (inl e) = (bytes_eq_iff name m).0 e
    named (inr e) = absurd (w (rw e refl))

-- While a process owns the mutex, its agreement is nowhere on the way.
pub owner_ungranted :
    {n k : ℕ} {m : Bytes} {s : System} (i j : ℕ)
    → Inv n k m s
    → i < n
    → j < n
    → i ≢ j
    → Owns m (s.process j)
    → agreements (weigh mutex_agreement m j) m (s.process i) (s.channel j i) ≡ 0
owner_ungranted {n} {m} {s} i j inv li lj ne o = elim (ℕ_discrete (wants m (s.process i).main) 0) [
  | yes e ↦ omega (arith, (inv.pairs i j li lj ne).tokens, e)
  | no w ↦
      let (l, t, q) =
        wants-queued n i m (s.process i) (s.process i).main (inv.local i li).main_ok w in
      let quiet = settled-quiet m (s.process j).main o.settled in
      let pij = inv.pairs i j li lj ne in
      let pji = inv.pairs j i lj li (λ e. ne (sym e)) in
      let after = pji.order o.stamp t o.queued q l (omega (arith, pji.tokens, quiet.0)) in
      elim (ℕ_discrete (open_requests (weigh mutex_request m i) m (s.process j) (s.channel i j))
        0) [
          | no z ↦ omega (arith, pij.tokens, z, wants-le m (s.process i).main)
          | yes z ↦
              (let before = pij.order t o.stamp q o.queued quiet.1 z in
                absurd (omega (arith, before, after)))
        ]
]
  where
    wants-le : (m : Bytes) (main : Main) → wants m main ≤ 1
    wants-le m running = omega arith
    wants-le m (acquiring name ag) = ground arith
    wants-le m (releasing name rest) = omega arith
