-- ===== src/Store/Closed.antt =====
-- A closed memory store answers every method with `ErrStoreUnavailable` and stays as it is.
use webmail_engine.Base.{◌≡◌, refl, Bool, true, List, Option, none, some, String, if_true}
use webmail_engine.Base.Int.{ℤ}
use webmail_engine.Store.Types.{
  store_unavailable, err, Account, AuditLog, AccountProcessorConfig, FolderSyncState, MemoryStore,
}
use webmail_engine.Store.{get_by_id, get_by_email, list, create, update, delete, close}
use webmail_engine.Store.Records.{
  create_audit_log, list_audit_logs, get_folder_sync_state, upsert_folder_sync_state,
  delete_folder_sync_state, list_folder_sync_states, get_account_processor_configs,
  update_account_processor_configs, enable_account_processor,
}

module _ {R : Type 0} where
  create_closed :
      (s : MemoryStore R) (a : Option (Account R))
      → s.closed ≡ true
      → create s a ≡ (s, err store_unavailable)
  unfolding create
  create_closed s none c = rw c refl
  create_closed s (some a) c = if_true s.closed _ _ c

  update_closed :
      (s : MemoryStore R) (a : Option (Account R))
      → s.closed ≡ true
      → update s a ≡ (s, err store_unavailable)
  unfolding update
  update_closed s none c = rw c refl
  update_closed s (some a) c = if_true s.closed _ _ c

  upsert_closed :
      (s : MemoryStore R) (state : Option FolderSyncState)
      → s.closed ≡ true
      → upsert_folder_sync_state s state ≡ (s, err store_unavailable)
  unfolding upsert_folder_sync_state
  upsert_closed s none c = rw c refl
  upsert_closed s (some state) c = if_true s.closed _ _ c

  -- After `Close`, every method that takes an argument of the store's data answers with
  -- `ErrStoreUnavailable`, a nil argument included, and none changes the store.
  pub close_lem :
      (s' : MemoryStore R) (id email kind : String) (order : List (Account R)) (offset limit : ℤ)
      (a : Option (Account R)) (log : AuditLog) (state : Option FolderSyncState)
      (configs : List AccountProcessorConfig) (enabled : Bool)
      → let s = close s' in
        (get_by_id s id ≡ (s, err store_unavailable))
        × (get_by_email s email ≡ (s, err store_unavailable))
        × (list s order offset limit ≡ (s, err store_unavailable))
        × (create s a ≡ (s, err store_unavailable))
        × (update s a ≡ (s, err store_unavailable))
        × (delete s id ≡ (s, err store_unavailable))
        × (create_audit_log s log ≡ (s, err store_unavailable))
        × (list_audit_logs s offset limit ≡ err store_unavailable)
        × (get_folder_sync_state s id kind ≡ err store_unavailable)
        × (upsert_folder_sync_state s state ≡ (s, err store_unavailable))
        × (delete_folder_sync_state s id kind ≡ (s, err store_unavailable))
        × (list_folder_sync_states s id ≡ err store_unavailable)
        × (get_account_processor_configs s id ≡ err store_unavailable)
        × (update_account_processor_configs s id configs ≡ (s, err store_unavailable))
        × (enable_account_processor s id kind enabled ≡ (s, err store_unavailable))
  unfolding close get_by_id get_by_email list delete create_audit_log list_audit_logs
      get_folder_sync_state delete_folder_sync_state list_folder_sync_states
      get_account_processor_configs update_account_processor_configs enable_account_processor
  close_lem s' id email kind order offset limit a log state configs enabled = (
    refl,
    refl,
    refl,
    create_closed (close s') a refl,
    update_closed (close s') a refl,
    refl,
    refl,
    refl,
    refl,
    upsert_closed (close s') state refl,
    refl,
    refl,
    refl,
    refl,
    refl,
  )
