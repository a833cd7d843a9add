-- ===== src/SyncDb/Runs.antt =====
-- Runs of calls on the database of csrc/race_sanitizer/alg_framework/sync_event_data_base.cpp, against a
-- queue for each event.
use ascend_mssanitizer.Base.Assoc.{lookup}
use ascend_mssanitizer.SyncDb.Queues.{
  pending, pending-set_event, get_event-Taken, Taken, failed, taken,
}
use ascend_mssanitizer.Base.{
  ◌∷◌, ◌≡◌, refl, ap, [], none, if◌then◌else◌, some, Option, List, ◌++◌, inl, ◌∙◌, sym, Bool-cases,
  inr,
}
use ascend_mssanitizer.SyncDb.{
  sync_event_beq, set_event, SyncEventDataBase, get_event, SyncEvent, sync_event_beq_iff,
}
use ascend_mssanitizer.Event.{VectorTime}

pub data SyncOp : Type 0 where
  put_time : SyncEvent → VectorTime → SyncOp
  take_time : SyncEvent → SyncOp

abbrev pub kept_db : SyncEventDataBase → Option (VectorTime × SyncEventDataBase) → SyncEventDataBase
kept_db db none = db
kept_db db (some t) = t.1

abbrev pub time_got : Option (VectorTime × SyncEventDataBase) → Option VectorTime
time_got none = none
time_got (some t) = some t.0

-- What the calls of `Get` hand out, in their order.
unfoldable pub run_sync : List SyncOp → SyncEventDataBase → List (Option VectorTime)
run_sync [] db = []
run_sync (put_time e vt ∷ ops) db = run_sync ops (set_event e vt db)
run_sync (take_time e ∷ ops) db =
    time_got (get_event e db) ∷ run_sync ops (kept_db db (get_event e db))

abbrev pub Queues : Type 0
Queues = SyncEvent → List VectorTime

abbrev pub changed : SyncEvent → List VectorTime → Queues → Queues
changed e ts q f = if sync_event_beq e f then ts else q f

abbrev pub first_of : List VectorTime → Option VectorTime
first_of [] = none
first_of (t ∷ ts) = some t

abbrev pub rest_of : List VectorTime → List VectorTime
rest_of [] = []
rest_of (t ∷ ts) = ts

-- The same calls on queues: a set puts its time at the end, a get takes the first.
unfoldable pub replay_sync : List SyncOp → Queues → List (Option VectorTime)
replay_sync [] q = []
replay_sync (put_time e vt ∷ ops) q = replay_sync ops (changed e (q e ++ vt ∷ []) q)
replay_sync (take_time e ∷ ops) q = first_of (q e) ∷ replay_sync ops (changed e (rest_of (q e)) q)

-- The database stands for the queues.
abbrev pub StandsFor : SyncEventDataBase → Queues → Type 0
StandsFor db q = (f : SyncEvent) → pending db f ≡ q f

set_event-StandsFor :
    (e : SyncEvent) (vt : VectorTime) (db : SyncEventDataBase) (q : Queues)
    → StandsFor db q
    → StandsFor (set_event e vt db) (changed e (q e ++ vt ∷ []) q)
set_event-StandsFor e vt db q h f = elim (Bool-cases (sync_event_beq e f)) [
  | inl b ↦ pending-set_event e f vt db ∙ rw b (ap (λ r. r ++ vt ∷ []) (h e))
  | inr b ↦ pending-set_event e f vt db ∙ rw b (h f)
]

module _ (e : SyncEvent) (db : SyncEventDataBase) (q : Queues) (h : StandsFor db q) where
  abbrev Took : Option (VectorTime × SyncEventDataBase) → Type 0
  Took o = (time_got o ≡ first_of (q e)) × StandsFor (kept_db db o) (changed e (rest_of (q e)) q)

  failed-Took : pending db e ≡ [] → Took none
  failed-Took empty =
      let none_left : q e ≡ [] = sym (h e) ∙ empty in
      (
        sym (ap first_of none_left),
        λ f. elim (Bool-cases (sync_event_beq e f)) [
          | inl b ↦
              let same : e ≡ f = (sync_event_beq_iff e f).0 b in
              rw b (h f ∙ sym (ap q same) ∙ none_left ∙ sym (ap rest_of none_left))
          | inr b ↦ rw b (h f)
        ],
      )

  taken-Took :
      (vt : VectorTime) (rest : SyncEventDataBase)
      → ((f : SyncEvent)
          → pending db f ≡ (if sync_event_beq e f then vt ∷ pending rest f else pending rest f))
      → Took (some (vt, rest))
  taken-Took vt rest t =
      let own : q e ≡ vt ∷ pending rest e =
        sym (h e) ∙ t e ∙ rw ((sync_event_beq_iff e e).1 refl) refl in
      (
        sym (ap first_of own),
        λ f. elim (Bool-cases (sync_event_beq e f)) [
          | inl b ↦
              let same : e ≡ f = (sync_event_beq_iff e f).0 b in
              rw b (ap (pending rest) (sym same) ∙ sym (ap rest_of own))
          | inr b ↦ rw b (sym (sym (h f) ∙ t f ∙ rw b refl))
        ],
      )

  from_Taken : (o : Option (VectorTime × SyncEventDataBase)) → Taken e db o → Took o
  from_Taken none (failed empty) = failed-Took empty
  from_Taken (some o) (taken vt rest t) = taken-Took vt rest t

run_sync-replay :
    (ops : List SyncOp) (db : SyncEventDataBase) (q : Queues)
    → StandsFor db q
    → run_sync ops db ≡ replay_sync ops q
unfolding run_sync replay_sync
run_sync-replay [] db q h = refl
run_sync-replay (put_time e vt ∷ ops) db q h =
    run_sync-replay ops _ _ (set_event-StandsFor e vt db q h)
run_sync-replay (take_time e ∷ ops) db q h =
    let got = from_Taken e db q h (get_event e db) (get_event-Taken e db) in
    rw got.0 (ap (λ r. first_of (q e) ∷ r) (run_sync-replay ops _ _ got.1))

-- The times that the calls of Get hand out in any run of Set and Get on a new database are those of a queue
-- for each event: each Get hands out the oldest time that was set for its event and not yet handed out, and
-- fails where there is none.
pub run_sync-Refines : (ops : List SyncOp) → run_sync ops [] ≡ replay_sync ops (λ f. [])
unfolding lookup
run_sync-Refines ops = run_sync-replay ops [] (λ f. []) (λ f. refl)
