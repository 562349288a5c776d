-- ===== src/Exclusion/Released.antt =====
-- What `releaseMutex` does, and that the steps of the system do it.
use distributed_monitor.Base.{
  ℕ, ◌≡◌, refl, ap, ◌∙◌, arith, List, [], ◌∷◌, ◌++◌, map, All, none, some, Bytes, bytes_eq,
  if◌then◌else◌,
}
use distributed_monitor.Base.Assoc
use distributed_monitor.Communication.Packet.{mutex_agreement, Packet}
use distributed_monitor.Communication.Clock.{Delivery, send, send_one}
use distributed_monitor.Exclusion.Algorithm.{
  Exclusion, send_agreement, send_agreements, dequeue, release_mutex,
}
use distributed_monitor.Exclusion.System.{
  running, releasing, Process, Act, release, answer, released,
}

-- Steps of one process, and all that it sends in them.
pub data Acts (n : ℕ) : Process → Process → List Delivery → Type 0 where
  no_step : {p : Process} → Acts n p p []
  next :
      {p q r : Process} {out more : List Delivery}
      → Act n p q out
      → Acts n q r more
      → Acts n p r (out ++ more)

answers :
    (n : ℕ) (p : Process) (name : Bytes) (rest : List Packet)
    → p.main ≡ releasing name rest
    → Acts n p
        (record p { exclusion = dequeue (send_agreements p.exclusion rest).0 name; main = running })
        (send_agreements p.exclusion rest).1
unfolding send_agreements
answers n p name [] e = next (released e) no_step
answers n p name (request ∷ rest) e = next (answer e) (
    answers n
      (record p { exclusion = (send_agreement p.exclusion request).0; main = releasing name rest })
      name rest refl)

release_mutex-steps :
    (n : ℕ) (p : Process) (name : Bytes) {t : ℕ}
    → p.main ≡ running
    → Assoc.find name p.exclusion.queued_mutexes ≡ some t
    → Acts n p
        (record p { exclusion = (release_mutex p.exclusion name).0; main = running })
        (release_mutex p.exclusion name).1
unfolding release_mutex
release_mutex-steps n p name e q = next (release name e q) (
    answers n (record p { main = releasing name (Assoc.at [] name p.exclusion.received_requests) })
      name (Assoc.at [] name p.exclusion.received_requests) refl)

send_agreements-answers :
    (a : Exclusion) (rest : List Packet)
    → (map (λ d. d.to) (send_agreements a rest).1 ≡ map (λ q. q.source) rest)
      × (map (λ d. d.packet.message) (send_agreements a rest).1 ≡ map (λ q. q.message) rest)
      × All (λ d. d.packet.message_type ≡ mutex_agreement) (send_agreements a rest).1
      × ((send_agreements a rest).0.queued_mutexes ≡ a.queued_mutexes)
      × ((send_agreements a rest).0.received_requests ≡ a.received_requests)
unfolding send_agreements send_agreement send_one send
send_agreements-answers a [] = (refl, refl, tt, refl, refl)
send_agreements-answers a (q ∷ rest) =
    let (to, text, type, queue, stored) = send_agreements-answers (send_agreement a q).0 rest in
    (ap (◌∷◌ q.source) to, ap (◌∷◌ q.message) text, (refl, type), queue, stored)

-- What `releaseMutex` leaves: the mutex is not queued and no request for it is stored, while what is
-- known of the others stays; it has sent one agreement for each request that was stored, to the sender
-- of the request and about the same mutex.
pub record IsReleased (name : Bytes) (a a' : Exclusion) (out : List Delivery) : Type 0 where
  pub queued :
      (other : Bytes)
      → Assoc.find other a'.queued_mutexes
        ≡ (if bytes_eq name other then none else Assoc.find other a.queued_mutexes)
  pub stored :
      (other : Bytes)
      → Assoc.at [] other a'.received_requests
        ≡ (if bytes_eq name other then [] else Assoc.at [] other a.received_requests)
  pub recipients : map (λ d. d.to) out ≡ map (λ q. q.source) (Assoc.at [] name a.received_requests)
  pub messages :
      map (λ d. d.packet.message) out ≡ map (λ q. q.message) (Assoc.at [] name a.received_requests)
  pub agreements : All (λ d. d.packet.message_type ≡ mutex_agreement) out

release_mutex-IsReleased :
    (a : Exclusion) (name : Bytes)
    → IsReleased name a (release_mutex a name).0 (release_mutex a name).1
unfolding release_mutex dequeue Assoc.at
release_mutex-IsReleased a name =
    let rest = Assoc.at [] name a.received_requests in
    let (to, text, type, queue, kept) = send_agreements-answers a rest in
    record {
      queued = λ other.
          Assoc.find-erase name other (send_agreements a rest).0.queued_mutexes
          ∙ ap (λ m. if bytes_eq name other then none else Assoc.find other m) queue;
      stored = λ other. ground (
        arith,
        Assoc.find-assign name other [] (send_agreements a rest).0.received_requests,
        kept,
      );
      recipients = to;
      messages = text;
      agreements = type;
    }

-- `releaseMutex` of a mutex that the process has queued for takes the mutex out of the queue, forgets
-- the requests for it and answers each of them by one agreement to its sender, whatever else is queued
-- or stored stays; and with nothing else between its statements it is a sequence of steps of the
-- system, with the same result and the same packets.
pub release_mutex-Acts :
    (n : ℕ) (p : Process) (name : Bytes) {t : ℕ}
    → p.main ≡ running
    → Assoc.find name p.exclusion.queued_mutexes ≡ some t
    → IsReleased name p.exclusion
        (release_mutex p.exclusion name).0
        (release_mutex p.exclusion name).1
      × Acts n p
          (record p { exclusion = (release_mutex p.exclusion name).0; main = running })
          (release_mutex p.exclusion name).1
release_mutex-Acts n p name e q =
    (release_mutex-IsReleased p.exclusion name, release_mutex-steps n p name e q)
