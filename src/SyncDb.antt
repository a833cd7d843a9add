-- ===== src/SyncDb.antt =====
-- csrc/race_sanitizer/alg_framework/sync_event_data_base.cpp: class SyncEventDataBase. Each
-- set/wait pair of pipes has a queue of vector times.
pub mod Queues
pub mod Runs
use ascend_mssanitizer.Base.{
  ℕ, ◌≡◌, ◌↔◌, Bool, true, ◌&&◌, Option, none, some, List, [], ◌∷◌, ◌++◌, arith, ◌==◌,
}
use ascend_mssanitizer.Base.Assoc.{Eq, lookup, insert, queue_of}
use ascend_mssanitizer.Event.{VectorTime}

-- The key: `SyncEvent::info`. `bool_bit` is the bool's value.
pub record SyncEvent : Type 0 where
  pub src_pipe : ℕ
  pub dst_pipe : ℕ
  pub event_id : ℕ
  pub mem_type : ℕ
  pub retrogress : ℕ

abbrev pub sync_event_beq : SyncEvent → SyncEvent → Bool
sync_event_beq a b =
    (a.src_pipe == b.src_pipe)
    && ((a.dst_pipe == b.dst_pipe)
        && ((a.event_id == b.event_id)
            && ((a.mem_type == b.mem_type) && (a.retrogress == b.retrogress))))

pub sync_event_beq_iff : (a b : SyncEvent) → (sync_event_beq a b ≡ true) ↔ (a ≡ b)
sync_event_beq_iff a b = ground arith

instance abbrev pub sync_event_eq : Eq SyncEvent
sync_event_eq = record { beq = sync_event_beq; beq_iff = sync_event_beq_iff }

abbrev pub SyncEventDataBase : Type 0
SyncEventDataBase = List (SyncEvent × List VectorTime)

-- `Set`
unfoldable pub set_event : SyncEvent → VectorTime → SyncEventDataBase → SyncEventDataBase
set_event e vt db = insert e (queue_of (lookup e db) ++ vt ∷ []) db

abbrev take_front :
    SyncEvent
    → Option (List VectorTime)
    → SyncEventDataBase
    → Option (VectorTime × SyncEventDataBase)
take_front e (some (vt ∷ rest)) db = some (vt, insert e rest db)
take_front e _ db = none

-- `Get`: `none` for its `false`, else the time that it hands out, and the new database.
unfoldable pub get_event : SyncEvent → SyncEventDataBase → Option (VectorTime × SyncEventDataBase)
get_event e db = take_front e (lookup e db) db
