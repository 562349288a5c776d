-- ===== src/Condition/Handle.antt =====
-- What handling a packet is for the process that handles it and for each other one.
use distributed_monitor.Base.{
  ℕ, ◌≡◌, ◌≢◌, Bool, true, false, List, [], ◌∷◌, ◌++◌, arith, ◌==◌, if◌then◌else◌, All, Bytes,
  bytes_eq_refl, Option, none, some,
}
use distributed_monitor.Base.Names
use distributed_monitor.Communication.Packet.{MessageType, type_eq, Packet}
use distributed_monitor.Communication.Clock.{Delivery}
use distributed_monitor.Exclusion.Defs.{weigh}
use distributed_monitor.Exclusion.Network.{sent_to}
use distributed_monitor.Condition.Algorithm.{
  takes_wait, on_wait, takes_wait_end, on_wait_end, takes_notify, takes_confirmation,
}
use distributed_monitor.Condition.System.{Member, awaits_notify, on_stage, on_condition_packet}
use distributed_monitor.Condition.Protocol.{Pair}
use distributed_monitor.Condition.Members.{Kind, call, end, answer, note, type_of, IsOurs, Local}
use distributed_monitor.Condition.Acts.{holds}

-- What handling does, by the type of the packet.
abbrev pub answered : Member → Option Member → Option (Member × List Delivery)
answered m none = none
answered m (some m') = some (m', [])

abbrev pub noted : Member → Bool → Option (Member × List Delivery)
noted m true = some (m, [])
noted m false = none

abbrev pub result : Member → Packet → Kind → Option (Member × List Delivery)
result m p call = some (record m { condition = on_wait m.condition p }, [])
result m p end =
    some (record m { condition = (on_wait_end m.condition p).0 }, (on_wait_end m.condition p).1)
result m p note = noted m (awaits_notify m.stage)
result m p answer = answered m (on_stage m p m.stage)

module _ (name : Bytes) where
  abbrev pub packet : ℕ → ℕ → Kind → Packet
  packet time j k = record {
    lamport_time = time;
    source = j;
    message_type = type_of k;
    message = name;
  }

  pub on_condition_packet-result :
      (m : Member) (time j : ℕ) (k : Kind)
      → Names.contains m.condition.registered_cvs name ≡ true
      → on_condition_packet name m (packet time j k) ≡ result m (packet time j k) k
  unfolding on_condition_packet takes_wait takes_wait_end takes_notify takes_confirmation
  on_condition_packet-result m time j call h = ground (arith, h)
  on_condition_packet-result m time j end h = ground (arith, h)
  on_condition_packet-result m time j note h = ground (arith, bytes_eq_refl name)
  on_condition_packet-result m time j answer h = ground (arith, bytes_eq_refl name)

  pub weigh-packet :
      (t : MessageType) (time j b : ℕ) (k : Kind)
      → weigh t name b (packet time j k)
        ≡ (if type_eq (type_of k) t then (if j == b then 1 else 0) else 0)
  weigh-packet t time j b k = ground (arith, bytes_eq_refl name)

  -- What handling a packet `p` from `j` is to process `i`, which goes on as `m'` and sends `out`.
  pub record Effects (n i j : ℕ) (p : Packet) (m m' : Member) (out : List Delivery) : Type 0 where
    pub local : Local name n i m'
    pub own : (b : ℕ) → All (IsOurs name i) (sent_to b out)
    pub silent : sent_to i out ≡ []
    pub held : holds m'.stage ≡ holds m.stage
    pub asker_first :
        {q : Member} {there back : List Packet}
        → Pair name i j m q there (p ∷ back)
        → Pair name i j m' q (there ++ sent_to j out) back
    pub asker_rest :
        {y : ℕ} {q : Member} {there back : List Packet}
        → y ≢ j
        → Pair name i y m q there back
        → Pair name i y m' q (there ++ sent_to y out) back
    pub replier_first :
        {q : Member} {there back : List Packet}
        → Pair name j i q m (p ∷ there) back
        → Pair name j i q m' there (back ++ sent_to j out)
    pub replier_rest :
        {x : ℕ} {q : Member} {there back : List Packet}
        → x ≢ j
        → Pair name x i q m there back
        → Pair name x i q m' there (back ++ sent_to x out)
