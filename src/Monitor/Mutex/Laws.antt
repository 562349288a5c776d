-- ===== src/Monitor/Mutex/Laws.antt =====
-- The flag of the mutex follows the calls of the algorithm.
use distributed_monitor.Base.{
  ◌≡◌, Bool, true, false, List, [], ◌∷◌, Option, none, some, arith, if◌then◌else◌, Bytes, bytes_eq,
  bytes_eq_refl,
}
use distributed_monitor.Monitor.Mutex.{
  ExclusionAlgorithm, ConditionAlgorithm, Mutex, lock, is_owned, unlock, try_lock, wait,
}

-- The calls that an algorithm sees, the latest first.
pub data Call : Type 0 where
  registered unregistered acquired released : Bytes → Call

-- An algorithm that records its calls.
abbrev pub recording : ExclusionAlgorithm (List Call)
recording = record {
  register_mutex = λ name s. registered name ∷ s;
  unregister_mutex = λ name s. unregistered name ∷ s;
  acquire_mutex = λ name s. acquired name ∷ s;
  release_mutex = λ name s. released name ∷ s;
  get_process_id = λ s. 0;
}

-- The calls that a user makes of a mutex.
pub data Use : Type 0 where
  use_lock use_unlock use_try_lock : Use

abbrev pub perform : {S : Type 0} → ExclusionAlgorithm S → Use → Mutex × S → Mutex × S
perform algorithm use_lock (m, s) = lock algorithm m s
perform algorithm use_unlock (m, s) = unlock algorithm m s
perform algorithm use_try_lock (m, s) = let (_, m', s') = try_lock algorithm m s in (m', s')

abbrev pub run : {S : Type 0} → ExclusionAlgorithm S → List Use → Mutex × S → Mutex × S
run algorithm [] r = r
run algorithm (u ∷ us) r = run algorithm us (perform algorithm u r)

-- Whether the mutex is held after the calls so far, and `none` once it was acquired while held,
-- released while free, or called under another name.
abbrev pub holder : Bytes → List Call → Option Bool
holder name [] = some false
holder name (registered _ ∷ s) = holder name s
holder name (unregistered _ ∷ s) = holder name s
holder name (acquired other ∷ s) =
    if bytes_eq other name
    then (elim (holder name s) [ some false ↦ some true | _ ↦ none ])
    else none
holder name (released other ∷ s) =
    if bytes_eq other name
    then (elim (holder name s) [ some true ↦ some false | _ ↦ none ])
    else none

-- A user that locks only what it does not hold, by `lock`.
abbrev pub is_careful : Bool → List Use → Bool
is_careful held [] = true
is_careful held (use_lock ∷ us) = if held then false else is_careful true us
is_careful held (use_unlock ∷ us) = is_careful false us
is_careful held (use_try_lock ∷ us) = is_careful true us

alternates :
    (us : List Use) (name : Bytes) (owned : Bool) (s : List Call)
    → holder name s ≡ some owned
    → is_careful owned us ≡ true
    → let r = run recording us (record { name = name; owned = owned }, s) in
      holder name r.1 ≡ some r.0.owned
unfolding lock unlock try_lock
alternates [] name owned s h c = h
alternates (use_lock ∷ us) name true s h c = cc
alternates (use_lock ∷ us) name false s h c =
    alternates us name true (acquired name ∷ s) (rw (bytes_eq_refl name, h)) c
alternates (use_unlock ∷ us) name true s h c =
    alternates us name false (released name ∷ s) (rw (bytes_eq_refl name, h)) c
alternates (use_unlock ∷ us) name false s h c = alternates us name false s h c
alternates (use_try_lock ∷ us) name true s h c = alternates us name true s h c
alternates (use_try_lock ∷ us) name false s h c =
    alternates us name true (acquired name ∷ s) (rw (bytes_eq_refl name, h)) c

-- Whatever a careful user calls, the algorithm sees acquisitions and releases in turn, and the flag
-- says whether the last was an acquisition. `unlock` of a free mutex and `try_lock` of a held one
-- reach the algorithm as nothing.
pub run-alternates :
    (us : List Use) (m : Mutex) (s : List Call)
    → holder m.name s ≡ some m.owned
    → is_careful m.owned us ≡ true
    → let r = run recording us (m, s) in holder m.name r.1 ≡ some r.0.owned
run-alternates us m s h c = alternates us m.name m.owned s h c

-- A wait on a mutex that is not held throws; on one that is held it is the algorithm's.
pub wait_lem :
    {S : Type 0} (algorithm : ConditionAlgorithm S) (name : Bytes) (m : Mutex)
    (predicate : S → Bool) (s : S)
    → wait algorithm name m predicate s
      ≡ (if is_owned m then some (algorithm.wait name m predicate s) else none)
unfolding wait is_owned
wait_lem algorithm name m predicate s = ground arith
