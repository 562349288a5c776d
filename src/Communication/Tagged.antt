-- ===== src/Communication/Tagged.antt =====
-- communication/ITaggedCommunicator.h: the overloads without a tag and those for one or for all other
-- processes, over the `send` of the communicator that implements it; and the two communicators.
use distributed_monitor.Base.{ℕ, ◌≡◌, refl, sym, ◌∙◌, List, [], ◌∷◌, arith, Bytes}
use distributed_monitor.Communication.Packet.{MessageType, Packet}
use distributed_monitor.Communication.Clock
use distributed_monitor.Communication.Clock.{Communicator, tick}
use distributed_monitor.Communication.Simple
use distributed_monitor.Communication.Simple.{Envelope, raw_packet}
use distributed_monitor.Communication.Optimized
use distributed_monitor.Communication.Optimized.{Letter}

-- `E` is what MPI is asked to carry. An implementation stamps and returns the packet that the callers of
-- a communicator expect.
pub record TaggedCommunicator (E : Type 0) : Type 0 where
  pub send_tagged : Communicator → MessageType → Bytes → List ℕ → ℕ → Communicator × Packet × List E
  pub get_default_tag : ℕ
  pub send_tagged-send :
      (c : Communicator) (t : MessageType) (message : Bytes) (recipients : List ℕ) (tag : ℕ)
      → ((send_tagged c t message recipients tag).0 ≡ (Clock.send c t message recipients).0)
        × ((send_tagged c t message recipients tag).1 ≡ (Clock.send c t message recipients).1)

-- MPI_DEFAULT_TAG
abbrev pub mpi_default_tag : ℕ
mpi_default_tag = 0

module _ {E : Type 0} (tagged : TaggedCommunicator E) where
  unfoldable pub send : Communicator → MessageType → Bytes → List ℕ → Communicator × Packet × List E
  send c t message recipients = tagged.send_tagged c t message recipients tagged.get_default_tag

  unfoldable pub send_one_tagged :
      Communicator → MessageType → Bytes → ℕ → ℕ → Communicator × Packet × List E
  send_one_tagged c t message recipient tag = tagged.send_tagged c t message (recipient ∷ []) tag

  unfoldable pub send_others_tagged :
      Communicator → MessageType → Bytes → ℕ → Communicator × Packet × List E
  send_others_tagged c t message tag = tagged.send_tagged c t message c.other_processes tag

  -- The overloads that `ICommunicator` declares, which all end in the tagged `send`.
  unfoldable pub send_one : Communicator → MessageType → Bytes → ℕ → Communicator × Packet × List E
  unfolding send
  send_one c t message recipient = send c t message (recipient ∷ [])

  unfoldable pub send_others : Communicator → MessageType → Bytes → Communicator × Packet × List E
  unfolding send
  send_others c t message = send c t message c.other_processes

  -- Whatever the implementation, each overload advances the clock and returns the packet as the
  -- abstract communicator does, and a tag changes neither.
  pub send_one-send_others :
      (c : Communicator) (t : MessageType) (message : Bytes) (recipient tag : ℕ)
      → ((send_one c t message recipient).0 ≡ (Clock.send_one c t message recipient).0)
        × ((send_one c t message recipient).1 ≡ (Clock.send_one c t message recipient).1)
        × ((send_others c t message).0 ≡ (Clock.send_others c t message).0)
        × ((send_others c t message).1 ≡ (Clock.send_others c t message).1)
        × ((send_one_tagged c t message recipient tag).1 ≡ (send_one c t message recipient).1)
        × ((send_others_tagged c t message tag).1 ≡ (send_others c t message).1)
  unfolding send_one send_others send_one_tagged send_others_tagged Clock.send_one Clock.send_others
  send_one-send_others c t message recipient tag =
      let one = tagged.send_tagged-send c t message (recipient ∷ []) tagged.get_default_tag in
      let all = tagged.send_tagged-send c t message c.other_processes tagged.get_default_tag in
      (
        one.0,
        one.1,
        all.0,
        all.1,
        (tagged.send_tagged-send c t message (recipient ∷ []) tag).1 ∙ sym one.1,
        (tagged.send_tagged-send c t message c.other_processes tag).1 ∙ sym all.1,
      )

pub Simple-send_lem :
    (c : Communicator) (t : MessageType) (message : Bytes) (recipients : List ℕ) (tag : ℕ)
    → ((Simple.send c t message recipients tag).0 ≡ (Clock.send c t message recipients).0)
      × ((Simple.send c t message recipients tag).1 ≡ (Clock.send c t message recipients).1)
unfolding Simple.send Clock.send tick raw_packet
Simple-send_lem c t message recipients tag = (refl, ground arith)

unfoldable pub simple_communicator : TaggedCommunicator Envelope
unfolding Simple.send
simple_communicator = record {
  send_tagged = Simple.send;
  get_default_tag = mpi_default_tag;
  send_tagged-send = Simple-send_lem;
}

pub Optimized-send_lem :
    (c : Communicator) (t : MessageType) (message : Bytes) (recipients : List ℕ) (tag : ℕ)
    → ((Optimized.send c t message recipients tag).0 ≡ (Clock.send c t message recipients).0)
      × ((Optimized.send c t message recipients tag).1 ≡ (Clock.send c t message recipients).1)
unfolding Optimized.send Clock.send tick raw_packet
Optimized-send_lem c t message recipients tag = (refl, ground arith)

unfoldable pub optimized_communicator : TaggedCommunicator Letter
unfolding Optimized.send
optimized_communicator = record {
  send_tagged = Optimized.send;
  get_default_tag = mpi_default_tag;
  send_tagged-send = Optimized-send_lem;
}
