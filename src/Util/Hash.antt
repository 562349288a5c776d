-- ===== src/Util/Hash.antt =====
-- `hashCombine` of util/Utils.h, and the hashes of packets that the unordered sets use.
use Prim.Native.Nat.{bit_xor}
use distributed_monitor.Base.{ℕ, ◌+◌, ◌*◌, ◌/◌, ◌%◌, ◌^◌, ◌≡◌, true, arith, Bytes, bytes_eq_iff}
use distributed_monitor.Communication.Packet.{MessageType, type_code, Packet, packet_eq}
use distributed_monitor.Communication.Simple.{RawPacket, raw_eq}

-- One step: `seed ^= hash + 0x9e3779b9 + (seed << 6) + (seed >> 2)`, on 64 bits.
unfoldable pub hash_combine : ℕ → ℕ → ℕ
hash_combine seed hash =
    bit_xor seed ((hash + 0x9e3779b9 + seed * 2 ^ 6 % 2 ^ 64 + seed / 2 ^ 2) % 2 ^ 64)

-- `std::hash<MessageType>`
unfoldable pub type_hash : MessageType → ℕ
type_hash t = type_code t

-- `std::hash` of the standard library, on an `int` and on a string.
module _ (hash_int : ℕ → ℕ) (hash_string : Bytes → ℕ) where
  unfoldable pub packet_hash : Packet → ℕ
  unfolding hash_combine type_hash
  packet_hash p =
      hash_combine (hash_combine (hash_combine 0 (hash_int p.source)) (type_hash p.message_type))
        (hash_string p.message)

  unfoldable pub raw_packet_hash : RawPacket → ℕ
  unfolding hash_combine
  raw_packet_hash p =
      hash_combine (hash_combine 0 (hash_int p.message_type)) (hash_int p.next_packet_length)

  -- Packets that are equal have equal hashes, as an unordered set needs: what equality leaves out,
  -- the hash leaves out.
  pub packet_hash-eq : (p q : Packet) → packet_eq p q ≡ true → packet_hash p ≡ packet_hash q
  unfolding packet_hash packet_eq
  packet_hash-eq p q h = ground (arith, bytes_eq_iff p.message q.message)

  -- Headers that are equal have equal hashes, whatever their time stamps are.
  pub raw_packet_hash-eq :
      (p q : RawPacket) → raw_eq p q ≡ true → raw_packet_hash p ≡ raw_packet_hash q
  unfolding raw_packet_hash raw_eq
  raw_packet_hash-eq p q h = ground arith
