-- ===== src/Monitor/Memory/CatchUp.antt =====
-- What a process's variables become when all packets on the way to it have been handled.
use distributed_monitor.Base.{
  ℕ, ◌≤◌, ◌≡◌, ◌⊎◌, refl, inl, inr, true, false, List, [], ◌∷◌, ◌++◌, Option, none, some, arith, ap,
  some_inj, length, All, Bytes, bytes_eq_refl,
}
use distributed_monitor.Communication.Packet.{sync, type_eq, Packet}
use distributed_monitor.Communication.Clock.{Delivery}
use distributed_monitor.Exclusion.System.{
  Process, Act, acquire, acquired, release, answer, released, handled, other_send,
}
use distributed_monitor.Exclusion.Handler.{Outcome, skip, grant, delay, collect, on_packet-Outcome}
use distributed_monitor.Monitor.Sync.{pack_sync_message, takes_sync, Shared, on_sync}
use distributed_monitor.Monitor.Sync.Laws.{extract-pack}
use distributed_monitor.Monitor.Memory.{restored, after_hand}

Outcome-hand :
    {p : Process} {packet : Packet} {p' : Process} {out : List Delivery}
    → Outcome p packet p' out
    → p'.hand ≡ none
Outcome-hand (skip o) = refl
Outcome-hand (grant t c) = refl
Outcome-hand (delay t c) = refl
Outcome-hand (collect e t) = refl

-- An act leaves the hand of the receiving thread as it is, or empties it.
pub Act-hand :
    {n : ℕ} {p p' : Process} {out : List Delivery}
    → Act n p p' out
    → (p'.hand ≡ p.hand) ⊎ ((packet : Packet) × (p.hand ≡ some packet) × (p'.hand ≡ none))
Act-hand (acquire name r e) = inl refl
Act-hand (acquired e c) = inl refl
Act-hand (release name r e) = inl refl
Act-hand (answer e) = inl refl
Act-hand (released e) = inl refl
Act-hand {p} (handled {packet} f e r) = inr (packet, e, Outcome-hand (on_packet-Outcome p packet r))
Act-hand (other_send t message recipient lt ne a b) = inl refl

abbrev pub IsOther : Packet → Type 0
IsOther p = type_eq p.message_type sync ≡ false

module _ {V : Type 0} (shared : Shared V) (m : Bytes) where
  abbrev pub replay : V → List Packet → V
  replay v [] = v
  replay v (p ∷ ps) = replay (restored shared m p v) ps

  abbrev pub catch_up : V → Option Packet → List Packet → V
  catch_up v none channel = replay v channel
  catch_up v (some p) channel = replay v (p ∷ channel)

  pub restored-IsOther : (p : Packet) (v : V) → IsOther p → restored shared m p v ≡ v
  unfolding restored takes_sync
  restored-IsOther p v h = ground (arith, h)

  pub replay-IsOther : (ps : List Packet) (v : V) → All IsOther ps → replay v ps ≡ v
  replay-IsOther [] v h = refl
  replay-IsOther (p ∷ ps) v h = rw (restored-IsOther p v h.0) (replay-IsOther ps v h.1)

  pub replay-append : (v : V) (ps qs : List Packet) → replay v (ps ++ qs) ≡ replay (replay v ps) qs
  replay-append v [] qs = refl
  replay-append v (p ∷ ps) qs = replay-append (restored shared m p v) ps qs

  pub restored-pack :
      (p : Packet) (v w : V)
      → length m ≤ 127
      → type_eq p.message_type sync ≡ true
      → p.message ≡ pack_sync_message m (shared.save_state v)
      → restored shared m p w ≡ shared.restore_state (shared.save_state v) w
  unfolding restored takes_sync on_sync
  restored-pack p v w h t e =
      let packed = extract-pack m (shared.save_state v) h in
      rw (restored, takes_sync, t, e, packed.0, bytes_eq_refl m, on_sync, e, packed.1) refl

  -- To handle the packet in the hand brings a process no further than it gets anyhow.
  pub catch_up-after_hand :
      (v : V) (h h' : Option Packet) (channel : List Packet)
      → (h' ≡ h) ⊎ ((packet : Packet) × (h ≡ some packet) × (h' ≡ none))
      → catch_up (after_hand shared m h h' v) h' channel ≡ catch_up v h channel
  catch_up-after_hand v none none channel e = refl
  catch_up-after_hand v (some p) none channel e = refl
  catch_up-after_hand v none (some q) channel e = absurd (ground arith)
  catch_up-after_hand v (some p) (some q) channel e = elim e [
    | inl same ↦ ap (λ z. replay (restored shared m z v) channel) (some_inj q p same)
    | inr (x, a, b) ↦ absurd (cc)
  ]

  pub catch_up-IsOther :
      (v : V) (h : Option Packet) (channel : List Packet)
      → ((p : Packet) → h ≡ some p → IsOther p)
      → All IsOther channel
      → catch_up v h channel ≡ v
  catch_up-IsOther v none channel a b = replay-IsOther channel v b
  catch_up-IsOther v (some p) channel a b = replay-IsOther (p ∷ channel) v (a p refl, b)

  pub catch_up-append :
      (v : V) (h : Option Packet) (ps qs : List Packet)
      → catch_up v h (ps ++ qs) ≡ replay (catch_up v h ps) qs
  catch_up-append v none ps qs = replay-append v ps qs
  catch_up-append v (some p) ps qs = replay-append v (p ∷ ps) qs
