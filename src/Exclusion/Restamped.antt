-- ===== src/Exclusion/Restamped.antt =====
-- The exclusion algorithm over `MpiOptimizedCommunicator`, whose `receive` overwrites the stamp of a
-- packet by the receiver's clock.
use distributed_monitor.Base.{ℕ, ◌+◌, ◌^◌, ◌≤◌, ◌<◌, ◌≡◌, [], some, arith}
use distributed_monitor.Base.Assoc
use distributed_monitor.Communication.Packet.{Packet}
use distributed_monitor.Communication.Clock.{merge}
use distributed_monitor.Communication.Optimized.{update_timestamp}
use distributed_monitor.Exclusion.Algorithm.{Exclusion, can_send_agreement, defer, process_request}

-- The object after its communicator has received `p`, and `p` as it is handed to the callbacks.
abbrev pub restamp : Exclusion → Packet → Exclusion
unfolding update_timestamp
restamp a p = record a { communicator = (update_timestamp a.communicator p).0 }

abbrev pub restamped : Exclusion → Packet → Packet
unfolding update_timestamp
restamped a p = (update_timestamp a.communicator p).1

-- A process that has queued for a mutex, with a stamp not after its clock, grants no request for
-- it that comes in over the optimised communicator, whenever that was made: it sends nothing, and
-- stores the request. The clocks have not wrapped.
pub restamped-never_granted :
    (a : Exclusion) (p : Packet) (mine : ℕ)
    → a.communicator.current_lamport_time + 1 < 2 ^ 64
    → p.lamport_time + 1 < 2 ^ 64
    → Assoc.find p.message a.queued_mutexes ≡ some mine
    → mine ≤ a.communicator.current_lamport_time
    → process_request (restamp a p) (restamped a p) ≡ (defer (restamp a p) (restamped a p), [])
unfolding process_request can_send_agreement update_timestamp merge
restamped-never_granted a p mine h g q le = ground (arith, q)
