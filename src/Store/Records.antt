-- ===== src/Store/Records.antt =====
-- internal/store/memory_store.go: audit logs, folder sync states and processor configs.
use Prim.Native.String.{◌++◌ as text_append}
use webmail_engine.Base.{
  ℕ, ◌+◌, Bool, List, [], ◌∷◌, ◌++◌, Option, none, some, String, length, keep_if, get_elem?, set,
  str_eq, if◌then◌else◌,
}
use webmail_engine.Base.Int.{ℤ, pos}
use webmail_engine.Base.Dict.{lookup, insert, remove, values}
use webmail_engine.Store.Types.{
  not_found, store_unavailable, invalid_config, Result, ok, err, Account, AuditLog,
  AccountProcessorConfig, FolderSyncState, MemoryStore,
}
use webmail_engine.Store.Page.{page}

abbrev pub sync_key : String → String → String
sync_key account_id folder_name = text_append account_id (text_append ":" folder_name)

-- The first config of the type is switched; `none` where there is none.
unfoldable pub switch_config :
    String → Bool → List AccountProcessorConfig → Option (List AccountProcessorConfig)
switch_config type enabled [] = none
switch_config type enabled (c ∷ cs) =
    let later = switch_config type enabled cs in
    if str_eq c.type type
    then some (record c { enabled = enabled } ∷ cs)
    else elim later [ none ↦ none | some cs' ↦ some (c ∷ cs') ]

abbrev pub state_or_missing : Option FolderSyncState → Result FolderSyncState
state_or_missing none = err not_found
state_or_missing (some state) = ok state

module _ {R : Type 0} where
  unfoldable pub create_audit_log : MemoryStore R → AuditLog → MemoryStore R × Result (Unit {0})
  create_audit_log s log = if s.closed then (s, err store_unavailable) else (
    record s {
      audit_logs = s.audit_logs ++ record log { log_id = pos (length s.audit_logs + 1) } ∷ [];
    },
    ok tt,
  )

  -- The logs of the page (`none` is a panic), and their total.
  unfoldable pub list_audit_logs : MemoryStore R → ℤ → ℤ → Result (Option (List AuditLog) × ℕ)
  unfolding page
  list_audit_logs s offset limit =
      if s.closed
      then err store_unavailable
      else ok (page s.audit_logs offset limit, length s.audit_logs)

  unfoldable pub get_folder_sync_state : MemoryStore R → String → String → Result FolderSyncState
  unfolding lookup
  get_folder_sync_state s account_id folder_name =
      if s.closed
      then err store_unavailable
      else state_or_missing (lookup (sync_key account_id folder_name) s.folder_sync_state)

  -- A nil state is `none`.
  unfoldable pub upsert_folder_sync_state :
      MemoryStore R → Option FolderSyncState → MemoryStore R × Result (Unit {0})
  unfolding insert
  upsert_folder_sync_state s none =
      (s, err (if s.closed then store_unavailable else invalid_config))
  upsert_folder_sync_state s (some state) = if s.closed then (s, err store_unavailable) else (
    record s {
      folder_sync_state =
          insert (sync_key state.account_id state.folder_name) state s.folder_sync_state;
    },
    ok tt,
  )

  unfoldable pub delete_folder_sync_state :
      MemoryStore R → String → String → MemoryStore R × Result (Unit {0})
  unfolding remove
  delete_folder_sync_state s account_id folder_name =
      if s.closed then (s, err store_unavailable) else (
        record s {
          folder_sync_state = remove (sync_key account_id folder_name) s.folder_sync_state;
        },
        ok tt,
      )

  -- In the order in which the runtime visits the map.
  unfoldable pub list_folder_sync_states : MemoryStore R → String → Result (List FolderSyncState)
  unfolding keep_if
  list_folder_sync_states s account_id =
      if s.closed
      then err store_unavailable
      else ok (keep_if (λ state. str_eq state.account_id account_id) (values s.folder_sync_state))

  -- What a slice of configs shows; nil shows nothing.
  abbrev pub configs_of : MemoryStore R → Account R → List AccountProcessorConfig
  configs_of s account = elim account.processor_configs [
    | none ↦ []
    | some at ↦ elim (get_elem? s.arrays at) [ none ↦ [] | some cs ↦ cs ]
  ]

  -- The result is a copy of what the slice shows.
  unfoldable pub get_account_processor_configs :
      MemoryStore R → String → Result (List AccountProcessorConfig)
  unfolding lookup
  get_account_processor_configs s account_id =
      if s.closed then err store_unavailable else elim (lookup account_id s.accounts) [
        | none ↦ err not_found
        | some account ↦ ok (configs_of s account)
      ]

  -- The configs go into a new array.
  unfoldable pub update_account_processor_configs :
      MemoryStore R → String → List AccountProcessorConfig → MemoryStore R × Result (Unit {0})
  unfolding lookup insert
  update_account_processor_configs s account_id configs =
      if s.closed then (s, err store_unavailable) else elim (lookup account_id s.accounts) [
        | none ↦ (s, err not_found)
        | some account ↦ (
          record s {
            accounts =
                insert account_id (record account { processor_configs = some (length s.arrays) })
                  s.accounts;
            arrays = s.arrays ++ configs ∷ [];
          },
          ok tt,
        )
      ]

  -- The write goes into the array that the account's slice stands on.
  unfoldable pub switch_at :
      MemoryStore R
      → Option ℕ
      → Option (List AccountProcessorConfig)
      → MemoryStore R × Result (Unit {0})
  switch_at s (some at) (some cs) = (record s { arrays = set s.arrays at cs }, ok tt)
  switch_at s _ _ = (s, err not_found)

  unfoldable pub enable_account_processor :
      MemoryStore R → String → String → Bool → MemoryStore R × Result (Unit {0})
  unfolding lookup switch_at switch_config
  enable_account_processor s account_id processor_type enabled =
      if s.closed then (s, err store_unavailable) else elim (lookup account_id s.accounts) [
        | none ↦ (s, err not_found)
        | some account ↦
            switch_at s account.processor_configs
              (switch_config processor_type enabled (configs_of s account))
      ]
