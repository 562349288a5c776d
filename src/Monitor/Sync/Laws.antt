-- ===== src/Monitor/Sync/Laws.antt =====
-- Which monitors read a message of `pack_sync_message`, and what they read.
use distributed_monitor.Base.{
  ℕ, ◌+◌, ◌-◌, ◌%◌, ◌^◌, ◌≤◌, ◌<◌, ◌≡◌, ◌≢◌, ◌⊎◌, inl, inr, refl, ap, true, false, List, [], ◌∷◌,
  ◌++◌, some, arith, ◌==◌, length, length-append, take_all, take-append, drop-append, Bytes,
  bytes_eq, bytes_eq-cases, Bool-cases, All, All-append,
}
use distributed_monitor.Communication.Packet.{sync, mutex_agreement, type_eq, Packet}
use distributed_monitor.Communication.Clock.{Delivery, send, send_one, send_others, other_ids}
use distributed_monitor.Exclusion.Algorithm.{
  Exclusion, release_mutex, send_agreements, send_agreement,
}
use distributed_monitor.Exclusion.Network.{sent_to, sent_to-spread}
use distributed_monitor.Monitor.Sync.{
  char_size, extract_mutex_name, extract_serialized_data, pack_sync_message, accepts_name,
  takes_sync, Shared, on_sync, leave,
}

-- Round trip: from a packed message the name and the state are read as they were, if the name has at
-- most 127 bytes.
pub extract-pack :
    (name state : Bytes)
    → length name ≤ 127
    → (extract_mutex_name (pack_sync_message name state) ≡ some name)
      × (extract_serialized_data (pack_sync_message name state) ≡ some state)
unfolding extract_mutex_name extract_serialized_data pack_sync_message
extract-pack name state h =
    let size : char_size (length name % 256) ≡ length name = unfold char_size in ground arith in
    (
      ground (arith, size, take-append name state, length-append name state),
      ground (arith, size, drop-append name state, length-append name state),
    )

-- The message of a monitor whose name has at most 127 bytes is taken by the monitors of that name
-- and by no other, and it restores just the state that was saved.
pub takes_sync-pack :
    {V : Type 0} (shared : Shared V) (v w : V) (mine name : Bytes) (p : Packet)
    → length name ≤ 127
    → let q = record p {
      message_type = sync;
      message = pack_sync_message name (shared.save_state w);
    } in
      (takes_sync mine q ≡ some (bytes_eq name mine))
      × (on_sync shared q v ≡ some (shared.restore_state (shared.save_state w) v))
unfolding takes_sync on_sync
takes_sync-pack shared v w mine name p h =
    let e = extract-pack name (shared.save_state w) h in ground (arith, e)

longer-ne : (s : Bytes) (x : ℕ) (t : Bytes) → bytes_eq (s ++ x ∷ t) s ≡ false
longer-ne s x t = elim (bytes_eq-cases (s ++ x ∷ t) s) [
  | inl e ↦ absurd (omega (arith, ap (length {A = ℕ}) e.1, length-append s (x ∷ t)))
  | inr e ↦ e.0
]

-- A name of 128 to 255 bytes passes the assertion of the constructor, and the monitor that it names
-- does not take its own message, if any state is in it (of fewer than 2 ^ 32 bytes).
pub takes_sync-long :
    (name : Bytes) (x : ℕ) (state : Bytes) (p : Packet)
    → 128 ≤ length name
    → length name ≤ 255
    → length state < 2 ^ 32
    → (accepts_name name ≡ true)
      × (takes_sync name
            (record p { message_type = sync; message = pack_sync_message name (x ∷ state) })
          ≡ some false)
unfolding accepts_name takes_sync extract_mutex_name pack_sync_message
takes_sync-long name x state p lo hi fits =
    let huge : char_size (length name % 256) ≡ 2 ^ 64 - 256 + length name =
      unfold char_size in ground arith in
    let all =
      take_all (2 ^ 64 - 256 + length name) (name ++ x ∷ state)
        (omega (arith, length-append name (x ∷ state))) in
    (ground arith, ground (arith, huge, all, longer-ne name x state))

sent_to-append :
    (b : ℕ) (out more : List Delivery) → sent_to b (out ++ more) ≡ sent_to b out ++ sent_to b more
sent_to-append b [] more = refl
sent_to-append b (d ∷ out) more = ground (arith, sent_to-append b out more)

abbrev pub IsAgreementPacket : Packet → Type 0
IsAgreementPacket p = type_eq p.message_type mutex_agreement ≡ true

agreements-only :
    (b : ℕ) (a : Exclusion) (requests : List Packet)
    → All IsAgreementPacket (sent_to b (send_agreements a requests).1)
unfolding send_agreements
agreements-only b a [] = tt
agreements-only b a (r ∷ requests) =
    unfold send_agreement send_one send in
    rw (sent_to-append b (send_agreement a r).1 (send_agreements (send_agreement a r).0 requests).1)
      (All-append IsAgreementPacket (sent_to b (send_agreement a r).1) _
        (one (Bool-cases (b == r.source))) (agreements-only b (send_agreement a r).0 requests))
  where
    one :
        (((b == r.source) ≡ true) ⊎ ((b == r.source) ≡ false))
        → All IsAgreementPacket (sent_to b (send_agreement a r).1)
    one (inl e) = unfold send_agreement send_one send in rw e (refl, tt)
    one (inr e) = unfold send_agreement send_one send in rw e tt

-- A process that leaves the monitor sends to each other process first the state, and after it just
-- what `release_mutex` sends there, which are agreements only; the object goes on as after that
-- release.
pub leave-state_first :
    {V : Type 0} (shared : Shared V) (a : Exclusion) (name : Bytes) (v : V) (n b : ℕ)
    → a.communicator.other_processes ≡ other_ids n 0 a.communicator.my_process_id
    → b < n
    → b ≢ a.communicator.my_process_id
    → let message = pack_sync_message name (shared.save_state v) in
      let sent = send_others a.communicator sync message in
      let released = release_mutex (record a { communicator = sent.0 }) name in
      (sent_to b (leave shared a name v).1 ≡ sent.1 ∷ sent_to b released.1)
      × All IsAgreementPacket (sent_to b released.1)
      × ((leave shared a name v).0 ≡ released.0)
unfolding leave release_mutex send_others send
leave-state_first shared a name v n b e lt ne =
    let c = a.communicator in
    let sent = send_others c sync (pack_sync_message name (shared.save_state v)) in
    let released = release_mutex (record a { communicator = sent.0 }) name in
    (
      rw (sent_to-append b sent.2 released.1)
          (rw (e, sent_to-spread sent.1 n c.my_process_id b lt ne)),
      agreements-only b _ _,
      refl,
    )
