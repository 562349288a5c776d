-- ===== src/Communication/Optimized/Laws.antt =====
-- The wire format of the optimised communicator, and the time stamp that it reports.
use distributed_monitor.Base.{
  ℕ, zero, suc, ◌+◌, ◌*◌, ◌/◌, ◌%◌, ◌^◌, ◌<◌, ◌≡◌, ◌↔◌, ◌++◌, refl, ap, List, [], ◌∷◌, map, All,
  none, some, arith, length, get_or, Bytes,
}
use distributed_monitor.Communication.Packet.{MessageType, type_code, Packet}
use distributed_monitor.Communication.Clock.{Communicator, tick, merge}
use distributed_monitor.Communication.Optimized.{
  store_bytes, load_bytes, encode, get_packet, update_timestamp, letters, send, receive,
}
use distributed_monitor.Communication.Simple.Laws.{IsValue}

-- The number of values that `k` bytes hold.
abbrev room : ℕ → ℕ
room zero = 1
room (suc k) = 256 * room k

-- What is stored over `k` bytes is loaded again, and what stands behind is not read.
load-store : (k v : ℕ) (rest : Bytes) → v < room k → load_bytes k (store_bytes k v ++ rest) ≡ v
unfolding load_bytes store_bytes
load-store zero v rest h = omega arith
load-store (suc k) v rest h = omega (arith, load-store k (v / 256) rest (omega arith))

-- Decoding undoes encoding: the packet read from an encoded message has its time stamp, type and
-- text, for every stamp of 64 bits, every value of the enumeration and every text.
pub get_packet-encode :
    (time : ℕ) (t : MessageType) (message : Bytes) (source : ℕ)
    → time < 2 ^ 64
    → IsValue t
    → get_packet (encode time t message) source
      ≡ some (record { lamport_time = time; source = source; message_type = t; message = message })
unfolding get_packet encode
get_packet-encode time t message source h value =
    let tail = store_bytes 1 (type_code t) ++ message in
    let loaded = load-store 8 (time % 2 ^ 64) tail (omega arith) in
    let code : get_or (store_bytes 8 (time % 2 ^ 64) ++ tail) 8 0 ≡ type_code t =
      unfold store_bytes in omega (arith, value.0) in
    ground (arith, loaded, code, value)

-- What the receiver makes of a message: the packet that the sender's `send` returned, but for its
-- stamp, which is the receiver's new clock.
abbrev pub Arrives : Communicator → Packet → Bytes → Type 0
Arrives c p body =
    let c' = merge p.lamport_time c in
    receive c p.source body ≡ some (c', record p { lamport_time = c'.current_lamport_time })

letters-All :
    (P : Bytes → Type 0) (rs : List ℕ) (tag : ℕ) (body : Bytes)
    → P body
    → All (λ l. (l.tag ≡ tag) × P l.body) (letters rs tag body)
      × (map (λ l. l.to) (letters rs tag body) ≡ rs)
unfolding letters
letters-All P [] tag body h = (tt, refl)
letters-All P (r ∷ rs) tag body h =
    let (rest, same) = letters-All P rs tag body h in (((refl, h), rest), ap (◌∷◌ r) same)

-- What one optimised communicator sends the others receive, but for the stamp. `send` returns a
-- packet with the next value of the sender's clock, which is its new clock, and sends one message with
-- the tag to each recipient, in their order; whatever the clock of a receiver is, it takes the message
-- for that packet, stamped with the receiver's own new clock. The type is a value of the enumeration.
pub receive-encode :
    (c : Communicator) (t : MessageType) (message : Bytes) (recipients : List ℕ) (tag : ℕ)
    → IsValue t
    → let sent = send c t message recipients tag in
      (sent.1 ≡ record {
        lamport_time = (c.current_lamport_time + 1) % 2 ^ 64;
        source = c.my_process_id;
        message_type = t;
        message = message;
      })
      × (sent.0.current_lamport_time ≡ sent.1.lamport_time)
      × (map (λ l. l.to) sent.2 ≡ recipients)
      × ((c' : Communicator) → All (λ l. (l.tag ≡ tag) × Arrives c' sent.1 l.body) sent.2)
unfolding send tick
receive-encode c t message recipients tag value =
    let time = (c.current_lamport_time + 1) % 2 ^ 64 in
    let body = encode time t message in
    (
      refl,
      refl,
      (letters-All (λ b. Unit) recipients tag body tt).1,
      λ c'.
          (letters-All
            (Arrives c' (record {
              lamport_time = time;
              source = c.my_process_id;
              message_type = t;
              message = message;
            }))
            recipients tag body
            (unfold receive update_timestamp in
              ground
                (arith, get_packet-encode time t message c.my_process_id (omega arith) value))).0,
    )

-- A message shorter than its header gives no packet.
pub get_packet-short : (s : Bytes) (source : ℕ) → (get_packet s source ≡ none) ↔ (length s < 9)
unfolding get_packet
get_packet-short s source = (λ h. ground arith, λ h. ground arith)
