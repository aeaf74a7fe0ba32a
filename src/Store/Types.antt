-- ===== src/Store/Types.antt =====
-- The records that internal/store/memory_store.go keeps, and the errors of
-- internal/store/account_store.go. `R` is the type of what an account holds besides: fields that
-- the store copies and never reads.
use webmail_engine.Base.{ℕ, Bool, List, Option, String}
use webmail_engine.Base.Int.{ℤ}
use webmail_engine.Base.Dict.{Dict}

pub data StoreError : Type 0 where
  not_found already_exists store_unavailable invalid_config : StoreError

pub data Result {ℓ} (A : Type ℓ) : Type ℓ where
  ok : A → Result A
  err : StoreError → Result A

pub record AccountProcessorConfig : Type 0 where
  pub type : String
  pub meta : String
  pub enabled : Bool
  pub priority : ℤ

-- `processor_configs` is a slice: a reference to an array of the store's heap, or nil.
pub record Account (R : Type 0) : Type 0 where
  pub id : String
  pub email : String
  pub processor_configs : Option ℕ
  pub rest : R

pub record AuditLog : Type 0 where
  pub log_id : ℤ
  pub log_account : String
  pub event : String
  pub details : String

pub record FolderSyncState : Type 0 where
  pub account_id : String
  pub folder_name : String
  pub uid_validity : ℕ
  pub last_synced_uid : ℕ
  pub last_sync_time : ℕ
  pub message_count : ℕ
  pub is_initialized : Bool

pub record MemoryStoreStats : Type 0 where
  pub creates : ℤ
  pub updates : ℤ
  pub deletes : ℤ
  pub gets : ℤ
  pub lists : ℤ

-- `arrays` holds the backing arrays of the slices of processor configs, the program's and the
-- store's: a slice is a position in it.
pub record MemoryStore (R : Type 0) : Type 0 where
  pub accounts : Dict (Account R)
  pub email_index : Dict String
  pub closed : Bool
  pub audit_logs : List AuditLog
  pub folder_sync_state : Dict FolderSyncState
  pub stats : MemoryStoreStats
  pub arrays : List (List AccountProcessorConfig)
