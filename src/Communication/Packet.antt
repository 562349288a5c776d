-- ===== src/Communication/Packet.antt =====
-- util/Define.h and the `Packet` of communication/ICommunicator.h: message types, packets, and the
-- two kinds of set that hold them.
use distributed_monitor.Base.{
  ℕ, ◌≡◌, refl, Bool, ◌&&◌, List, [], ◌∷◌, ltb, ◌==◌, if◌then◌else◌, any, Bytes, bytes_eq,
}

-- `other` stands for the values of the underlying `unsigned char` that have no name.
pub data MessageType : Type 0 where
  mutex_request mutex_agreement cond_wait cond_wait_end cond_wait_end_confirm : MessageType
  cond_notify sync : MessageType
  other : ℕ → MessageType

-- `static_cast<std::underlying_type<MessageType>::type>`
abbrev pub type_code : MessageType → ℕ
type_code mutex_request = 0
type_code mutex_agreement = 1
type_code cond_wait = 2
type_code cond_wait_end = 3
type_code cond_wait_end_confirm = 4
type_code cond_notify = 5
type_code sync = 6
type_code (other c) = c

-- `static_cast<MessageType>` of a byte
unfoldable pub code_type : ℕ → MessageType
code_type c =
    if c == 0
    then mutex_request
    else if c == 1
    then mutex_agreement
    else if c == 2
    then cond_wait
    else if c == 3
    then cond_wait_end
    else if c == 4
    then cond_wait_end_confirm
    else if c == 5
    then cond_notify
    else if c == 6
    then sync
    else other c

abbrev pub type_eq : MessageType → MessageType → Bool
type_eq a b = type_code a == type_code b

pub record Packet : Type 0 where
  pub lamport_time : ℕ
  pub source : ℕ
  pub message_type : MessageType
  pub message : Bytes

-- `Packet::operator==`: the time stamp is not compared.
unfoldable pub packet_eq : Packet → Packet → Bool
packet_eq p q =
    p.source == q.source && (type_eq p.message_type q.message_type && bytes_eq p.message q.message)

-- `Packet::operator<`: only the time stamp is compared.
unfoldable pub packet_lt : Packet → Packet → Bool
packet_lt p q = ltb p.lamport_time q.lamport_time

-- `std::unordered_set<Packet>::insert`: an equal packet that is there already stays.
unfoldable pub insert : List Packet → Packet → List Packet
unfolding packet_eq
insert s p = if any (packet_eq p) s then s else p ∷ s

-- `std::set<Packet>::insert`: the set is kept in order, and of two packets neither of which is
-- less the one that is there stays.
unfoldable pub insert_ordered : List Packet → Packet → List Packet
unfolding packet_lt
insert_ordered [] p = p ∷ []
insert_ordered (q ∷ s) p =
    let rest = insert_ordered s p in
    if packet_lt p q then p ∷ q ∷ s else if packet_lt q p then q ∷ rest else q ∷ s

code_type-type_code_lem : code_type (type_code cond_notify) ≡ cond_notify
unfolding code_type
code_type-type_code_lem = refl
