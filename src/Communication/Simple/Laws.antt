-- ===== src/Communication/Simple/Laws.antt =====
-- What one communicator sends the other receives; what a receive that times out leaves behind.
use distributed_monitor.Base.{
  ℕ, ◌-◌, ◌^◌, ◌<◌, ◌≡◌, ◌≢◌, refl, List, [], ◌∷◌, ◌++◌, append-nil, arith, ◌==◌, if◌then◌else◌,
  count, length, Bytes, Bool-cases, inl, inr,
}
use distributed_monitor.Communication.Packet.{MessageType, type_code, code_type}
use distributed_monitor.Communication.Clock.{Communicator, Delivery, tick, merge}
use distributed_monitor.Communication.Clock
use distributed_monitor.Communication.Simple.{
  RawPacket, Frame, Envelope, frames, envelopes, send_each, raw_packet, send, to_packet, received,
  fill, deliver, receive_text, receive,
}

-- The messages that go to one process, in order.
abbrev pub frames_to : ℕ → List Envelope → List Frame
frames_to b [] = []
frames_to b (e ∷ es) = if b == e.to then e.frame ∷ frames_to b es else frames_to b es

-- A list of recipients in which `b` stands once.
abbrev pub once : ℕ → List ℕ → ℕ
once b = count (λ r. if r == b then 1 else 0)

-- A value of the enumeration: an `unsigned char`, under its name if it has one.
abbrev pub IsValue : MessageType → Type 0
IsValue t = (type_code t < 2 ^ 8) × (code_type (type_code t) ≡ t)

fill_whole : (s : Bytes) → fill (length s) s ≡ s
unfolding fill
fill_whole s = rw sub_self (append-nil s)
  where
    sub_self : length s - length s ≡ 0
    sub_self = omega arith

frames_to-envelopes :
    (b tag : ℕ) (fs : List Frame) (rest : List Envelope)
    → frames_to b (envelopes b tag fs ++ rest) ≡ fs ++ frames_to b rest
unfolding envelopes
frames_to-envelopes b tag [] rest = refl
frames_to-envelopes b tag (f ∷ fs) rest = ground (arith, frames_to-envelopes b tag fs rest)

frames_to-envelopes_ne :
    (b r tag : ℕ) (fs : List Frame) (rest : List Envelope)
    → b ≢ r
    → frames_to b (envelopes r tag fs ++ rest) ≡ frames_to b rest
unfolding envelopes
frames_to-envelopes_ne b r tag [] rest ne = refl
frames_to-envelopes_ne b r tag (f ∷ fs) rest ne =
    ground (arith, frames_to-envelopes_ne b r tag fs rest ne)

frames_to-none :
    (b tag : ℕ) (fs : List Frame) (to : List ℕ)
    → once b to ≡ 0
    → frames_to b (send_each to tag fs) ≡ []
unfolding send_each
frames_to-none b tag fs [] h = refl
frames_to-none b tag fs (r ∷ to) h =
    ground
      (arith, frames_to-none b tag fs to, frames_to-envelopes_ne b r tag fs (send_each to tag fs))

frames_to-once :
    (b tag : ℕ) (fs : List Frame) (to : List ℕ)
    → once b to ≡ 1
    → frames_to b (send_each to tag fs) ≡ fs
unfolding send_each
frames_to-once b tag fs [] h = absurd (omega arith)
frames_to-once b tag fs (r ∷ to) h = elim (Bool-cases (r == b)) [
  | inl e ↦ ground (
    arith,
    frames_to-envelopes b tag fs (send_each to tag fs),
    frames_to-none b tag fs to,
    append-nil fs,
  )
  | inr e ↦
      ground
        (arith, frames_to-once b tag fs to, frames_to-envelopes_ne b r tag fs (send_each to tag fs))
]

receive-frames :
    (c' : Communicator) (source : ℕ) (raw : RawPacket) (message : Bytes) (rest : List Frame)
    → raw.next_packet_length ≡ length message
    → receive c' source (frames raw message ++ rest) ≡ deliver c' source raw message rest
unfolding receive receive_text frames
receive-frames c' source raw [] rest e = ground arith
receive-frames c' source raw (x ∷ s) rest e = ground (arith, fill_whole (x ∷ s))

raw_length :
    (d : Communicator) (t : MessageType) (message : Bytes)
    → length message < 2 ^ 31
    → (raw_packet d t message).next_packet_length ≡ length message
unfolding raw_packet
raw_length d t message small = omega arith

sent_frames :
    (c : Communicator) (t : MessageType) (message : Bytes) (to : List ℕ) (tag b : ℕ)
    → once b to ≡ 1
    → frames_to b (send c t message to tag).2 ≡ frames (raw_packet (tick c) t message) message
unfolding send
sent_frames c t message to tag b one =
    frames_to-once b tag (frames (raw_packet (tick c) t message) message) to one

-- The end of `receive` for the header that `send` made.
delivered :
    (c c' : Communicator) (t : MessageType) (message : Bytes) (to : List ℕ) (tag : ℕ)
    (rest : List Frame)
    → IsValue t
    → deliver c' c.my_process_id (raw_packet (tick c) t message) message rest
      ≡ received (Clock.accept c' (send c t message to tag).1).0 (send c t message to tag).1 rest
unfolding send deliver raw_packet to_packet tick Clock.accept merge
delivered c c' t message to tag rest value = ground (arith, value)

-- A packet travels whole: a process to which `send` addressed the packet once, and for which MPI holds
-- just what was sent and then `rest`, receives the packet that `send` returned, is left with `rest`,
-- and has the clock of `accept`. The text has fewer than 2 ^ 31 bytes.
pub receive-send :
    (c c' : Communicator) (t : MessageType) (message : Bytes) (to : List ℕ) (tag b : ℕ)
    (rest : List Frame)
    → IsValue t
    → length message < 2 ^ 31
    → once b to ≡ 1
    → let sent = send c t message to tag in
      receive c' c.my_process_id (frames_to b sent.2 ++ rest)
      ≡ received (Clock.accept c' sent.1).0 sent.1 rest
receive-send c c' t message to tag b rest value small one =
    rw
      (
        sent_frames c t message to tag b one,
        receive-frames c' c.my_process_id (raw_packet (tick c) t message) message rest
            (raw_length (tick c) t message small),
      )
      (delivered c c' t message to tag rest value)
