-- ===== src/SyncDb/Queues.antt =====
-- The database of csrc/race_sanitizer/alg_framework/sync_event_data_base.cpp as a family of queues.
use ascend_mssanitizer.Base.{
  ◌≡◌, refl, Option, none, some, List, [], ◌∷◌, ◌++◌, arith, if◌then◌else◌,
}
use ascend_mssanitizer.Base.Assoc.{lookup, insert, queue_of, lookup-insert}
use ascend_mssanitizer.Event.{VectorTime}
use ascend_mssanitizer.SyncDb.{
  SyncEvent, sync_event_beq, sync_event_beq_iff, SyncEventDataBase, take_front, sync_event_eq,
  set_event, get_event,
}

-- The times that wait for an event, oldest first.
abbrev pub pending : SyncEventDataBase → SyncEvent → List VectorTime
pending db e = queue_of (lookup e db)

-- `Set` appends to the queue of its own event, and touches no other.
pub pending-set_event :
    (e f : SyncEvent) (vt : VectorTime) (db : SyncEventDataBase)
    → pending (set_event e vt db) f
      ≡ (if sync_event_beq e f then pending db e ++ vt ∷ [] else pending db f)
unfolding set_event
pending-set_event e f vt db = ground (arith, lookup-insert e f (pending db e ++ vt ∷ []) db)

-- What `Get` did: it took the oldest time of its event's queue and left the other queues, or the
-- queue was empty and it failed.
pub data Taken (e : SyncEvent) (db : SyncEventDataBase)
    : Option (VectorTime × SyncEventDataBase) → Type 0 where
  failed : pending db e ≡ [] → Taken e db none
  taken :
      (vt : VectorTime) (rest : SyncEventDataBase)
      → ((f : SyncEvent)
          → pending db f ≡ (if sync_event_beq e f then vt ∷ pending rest f else pending rest f))
      → Taken e db (some (vt, rest))

take_front-Taken :
    (e : SyncEvent) (db : SyncEventDataBase) (o : Option (List VectorTime))
    → lookup e db ≡ o
    → Taken e db (take_front e o db)
take_front-Taken e db none h = failed (rw h)
take_front-Taken e db (some []) h = failed (rw h)
take_front-Taken e db (some (vt ∷ rest)) h =
    taken vt (insert e rest db)
      (λ f. ground (arith, h, lookup-insert e f rest db, sync_event_beq_iff e f))

-- On every database `Get` takes the oldest time that was set for its event and not yet taken, and
-- leaves the queues of all other events; it fails exactly when its event's queue is empty.
pub get_event-Taken : (e : SyncEvent) (db : SyncEventDataBase) → Taken e db (get_event e db)
unfolding get_event
get_event-Taken e db = take_front-Taken e db (lookup e db) refl
