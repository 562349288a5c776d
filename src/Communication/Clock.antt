-- ===== src/Communication/Clock.antt =====
-- The state that `ICommunicator` keeps, its constructor's loop over the ranks, its default methods,
-- and the abstract network: a packet and the process that it goes to.
pub mod Laws
use distributed_monitor.Base.{
  ℕ, zero, suc, ◌+◌, ◌%◌, ◌^◌, max, List, [], ◌∷◌, map, ◌==◌, if◌then◌else◌, Bytes,
}
use distributed_monitor.Communication.Packet.{MessageType, Packet}

pub record Communicator : Type 0 where
  pub my_process_id : ℕ
  pub number_of_processes : ℕ
  pub other_processes : List ℕ
  pub current_lamport_time : ℕ  -- unsigned long

-- `for (id = …; id < numberOfProcesses; ++id) if (id != myProcessId) insert(id)`, over the rounds
-- that are left.
unfoldable pub other_ids : ℕ → ℕ → ℕ → List ℕ
other_ids zero id me = []
other_ids (suc rounds) id me =
    let rest = other_ids rounds (id + 1) me in if id == me then rest else id ∷ rest

-- The constructor, with the rank and the size that MPI reports.
unfoldable pub init : ℕ → ℕ → Communicator
unfolding other_ids
init rank size = record {
  my_process_id = rank;
  number_of_processes = size;
  other_processes = other_ids size 0 rank;
  current_lamport_time = 0;
}

-- `++currentLamportTime`
unfoldable pub tick : Communicator → Communicator
tick c = record c { current_lamport_time = (c.current_lamport_time + 1) % 2 ^ 64 }

-- `currentLamportTime = std::max(lamportTime, currentLamportTime) + 1`
unfoldable pub merge : ℕ → Communicator → Communicator
merge t c = record c { current_lamport_time = (max t c.current_lamport_time + 1) % 2 ^ 64 }

-- What the network is asked to carry.
pub record Delivery : Type 0 where
  pub to : ℕ
  pub packet : Packet

-- What `send` does for its callers: the clock ticks once, and one packet, stamped with the new time,
-- goes to each recipient and is returned.
unfoldable pub send :
    Communicator → MessageType → Bytes → List ℕ → Communicator × Packet × List Delivery
unfolding tick
send c t message recipients =
    let c' = tick c in
    let p : Packet = record {
      lamport_time = c'.current_lamport_time;
      source = c.my_process_id;
      message_type = t;
      message = message;
    } in
    (c', p, map (λ r. record { to = r; packet = p }) recipients)

-- `send` to one process
unfoldable pub send_one :
    Communicator → MessageType → Bytes → ℕ → Communicator × Packet × List Delivery
unfolding send
send_one c t message recipient = send c t message (recipient ∷ [])

unfoldable pub send_others :
    Communicator → MessageType → Bytes → Communicator × Packet × List Delivery
unfolding send
send_others c t message = send c t message c.other_processes

-- What `receive` of `MpiSimpleCommunicator` does for its callers, given the packet as it was sent. That of
-- `MpiOptimizedCommunicator` also overwrites the stamp of the packet.
unfoldable pub accept : Communicator → Packet → Communicator × Packet
unfolding merge
accept c p = (merge p.lamport_time c, p)
