-- ===== src/Communication/Clock/Laws.antt =====
-- The Lamport clock, and the recipients of `sendOthers`.
use distributed_monitor.Base.{
  ℕ, zero, suc, ◌+◌, ◌^◌, ◌<◌, ◌≡◌, List, arith, ◌==◌, ltb, leb, not, ◌&&◌, if◌then◌else◌, count,
  Bytes,
}
use distributed_monitor.Communication.Packet.{MessageType, Packet}
use distributed_monitor.Communication.Clock.{
  Communicator, other_ids, init, tick, merge, send, accept,
}

abbrev pub one_at : ℕ → ℕ → ℕ
one_at b x = if x == b then 1 else 0

count-other_ids_from :
    (rounds id me b : ℕ)
    → count (one_at b) (other_ids rounds id me)
      ≡ (if leb id b && (ltb b (id + rounds) && not (b == me)) then 1 else 0)
unfolding other_ids
count-other_ids_from zero id me b = ground arith
count-other_ids_from (suc rounds) id me b =
    ground (arith, count-other_ids_from rounds (id + 1) me b)

-- The communicator of rank `me` among `n` processes counts each rank below `n` but its own once
-- among the others, and no other number.
pub count-other_ids :
    (n me b : ℕ)
    → count (one_at b) (init me n).other_processes ≡ (if ltb b n && not (b == me) then 1 else 0)
unfolding init
count-other_ids n me b = ground (arith, count-other_ids_from n 0 me b)

-- What a process sends after it received a packet is stamped later than that packet, later than
-- all that the process sent before, and with its new clock, if the clock does not wrap.
pub send-accept_later :
    (c : Communicator) (p : Packet) (t : MessageType) (message : Bytes) (to : List ℕ)
    → p.lamport_time + 2 < 2 ^ 64
    → c.current_lamport_time + 2 < 2 ^ 64
    → let sent = send (accept c p).0 t message to in
      (p.lamport_time < sent.1.lamport_time)
      × (c.current_lamport_time < sent.1.lamport_time)
      × (sent.1.lamport_time ≡ sent.0.current_lamport_time)
unfolding send accept tick merge
send-accept_later c p t message to h g = omega arith
