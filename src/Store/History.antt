-- ===== src/Store/History.antt =====
-- Every history of calls of the memory store.
use webmail_engine.Base.Int.{ℤ}
use webmail_engine.Base.{
  ℕ, Bool, length, List, [], ◌∷◌, Option, none, some, String, Option-cases, if_split, inl, inr,
}
use webmail_engine.Base.Dict.{lookup}
use webmail_engine.Store.Types.{
  Account, AccountProcessorConfig, AuditLog, FolderSyncState, MemoryStore, Result,
}
use webmail_engine.Store.{
  new_memory_store, list, found, get_by_id, get_by_email, create, update, delete, close,
}
use webmail_engine.Store.Records.{
  switch_config, configs_of, switch_at, update_account_processor_configs, enable_account_processor,
  create_audit_log, upsert_folder_sync_state, delete_folder_sync_state,
}
use webmail_engine.Store.Index.{
  configured-Agrees, Inv, Agrees, IsNew, create-Inv, update-Inv, delete-Inv,
}

pub data Call (R : Type 0) : Type 0 where
  creates updates : Option (Account R) → Call R
  deletes reads finds : String → Call R
  logs : AuditLog → Call R
  upserts : Option FolderSyncState → Call R
  forgets : String → String → Call R
  configures : String → List AccountProcessorConfig → Call R
  switches : (account_id processor_type : String) (enabled : Bool) → Call R
  lists : List (Account R) → (offset limit : ℤ) → Call R
  closes : Call R

module _ {R : Type 0} where
  unfoldable pub step : MemoryStore R → Call R → MemoryStore R
  step s (creates a) = (create s a).0
  step s (updates a) = (update s a).0
  step s (deletes id) = (delete s id).0
  step s (reads id) = (get_by_id s id).0
  step s (finds email) = (get_by_email s email).0
  step s (logs log) = (create_audit_log s log).0
  step s (upserts state) = (upsert_folder_sync_state s state).0
  step s (forgets id folder) = (delete_folder_sync_state s id folder).0
  step s (configures id configs) = (update_account_processor_configs s id configs).0
  step s (switches id type enabled) = (enable_account_processor s id type enabled).0
  step s (lists order offset limit) = (list s order offset limit).0
  step s closes = close s

  pub run : MemoryStore R → List (Call R) → MemoryStore R
  run s [] = s
  run s (c ∷ cs) = run (step s c) cs

  -- Every account is created under an ID that is new at that time.
  abbrev pub AllNew : MemoryStore R → List (Call R) → Type 0
  AllNew s [] = Unit {0}
  AllNew s (creates a ∷ cs) = IsNew s a × AllNew (step s (creates a)) cs
  AllNew s (c ∷ cs) = Unit {0} × AllNew (step s c) cs

  nil-Agrees : Agrees {R = R} [] []
  unfolding lookup
  nil-Agrees = record { keyed = λ k a e. cc; indexed = λ k a e. cc; backed = λ e k f. absurd (cc) }

  pub new-Inv : Inv (new_memory_store {R = R})
  unfolding new_memory_store
  new-Inv = nil-Agrees

  found-Inv : (s : MemoryStore R) (a : Option (Account R)) → Inv s → Inv (found s a).0
  unfolding found
  found-Inv s none h = h
  found-Inv s (some a) h = record { keyed = h.keyed; indexed = h.indexed; backed = h.backed }

  -- The calls that leave the accounts and their index alone.
  reads-Inv : (s : MemoryStore R) (id : String) → Inv s → Inv (get_by_id s id).0
  unfolding get_by_id
  reads-Inv s id h =
      if_split (λ (r : MemoryStore R × Result (Account R)). Inv r.0) s.closed (λ _. h)
        (λ _. found-Inv s (lookup id s.accounts) h)

  finds-Inv : (s : MemoryStore R) (email : String) → Inv s → Inv (get_by_email s email).0
  unfolding get_by_email
  finds-Inv s email h =
      if_split (λ (r : MemoryStore R × Result (Account R)). Inv r.0) s.closed (λ _. h)
        (λ _. elim (Option-cases (lookup email s.email_index)) [
          | inl e ↦ rw e h
          | inr (id, e) ↦ rw e (found-Inv s (lookup id s.accounts) h)
        ])

  logs-Inv : (s : MemoryStore R) (log : AuditLog) → Inv s → Inv (create_audit_log s log).0
  unfolding create_audit_log
  logs-Inv s log h =
      if_split (λ (r : MemoryStore R × Result (Unit {0})). Inv r.0) s.closed (λ _. h) (λ _. h)

  upserts-Inv :
      (s : MemoryStore R) (state : Option FolderSyncState)
      → Inv s
      → Inv (upsert_folder_sync_state s state).0
  unfolding upsert_folder_sync_state
  upserts-Inv s none h = h
  upserts-Inv s (some state) h =
      if_split (λ (r : MemoryStore R × Result (Unit {0})). Inv r.0) s.closed (λ _. h) (λ _. h)

  forgets-Inv :
      (s : MemoryStore R) (id folder : String)
      → Inv s
      → Inv (delete_folder_sync_state s id folder).0
  unfolding delete_folder_sync_state
  forgets-Inv s id folder h =
      if_split (λ (r : MemoryStore R × Result (Unit {0})). Inv r.0) s.closed (λ _. h) (λ _. h)

  lists-Inv :
      (s : MemoryStore R) (order : List (Account R)) (offset limit : ℤ)
      → Inv s
      → Inv (list s order offset limit).0
  unfolding list
  lists-Inv s order offset limit h =
      if_split (λ (r : MemoryStore R × Result (Option (List (Account R)) × ℕ)). Inv r.0) s.closed
        (λ _. h) (λ _. record { keyed = h.keyed; indexed = h.indexed; backed = h.backed })

  switch_at-Inv :
      (s : MemoryStore R) (at : Option ℕ) (configs : Option (List AccountProcessorConfig))
      → Inv s
      → Inv (switch_at s at configs).0
  unfolding switch_at
  switch_at-Inv s none configs h = h
  switch_at-Inv s (some at) none h = h
  switch_at-Inv s (some at) (some cs) h = h

  switches-Inv :
      (s : MemoryStore R) (id type : String) (enabled : Bool)
      → Inv s
      → Inv (enable_account_processor s id type enabled).0
  unfolding enable_account_processor
  switches-Inv s id type enabled h =
      if_split (λ (r : MemoryStore R × Result (Unit {0})). Inv r.0) s.closed (λ _. h)
        (λ _. elim (Option-cases (lookup id s.accounts)) [
          | inl e ↦ rw e h
          | inr (a, e) ↦
              rw e (
                switch_at-Inv s a.processor_configs (switch_config type enabled (configs_of s a)) h)
        ])

  configures-Inv :
      (s : MemoryStore R) (id : String) (configs : List AccountProcessorConfig)
      → Inv s
      → Inv (update_account_processor_configs s id configs).0
  unfolding update_account_processor_configs
  configures-Inv s id configs h =
      if_split (λ (r : MemoryStore R × Result (Unit {0})). Inv r.0) s.closed (λ _. h)
        (λ _. elim (Option-cases (lookup id s.accounts)) [
          | inl e ↦ rw e h
          | inr (a, e) ↦
              rw e (configured-Agrees s.accounts s.email_index id a (some (length s.arrays)) e h)
        ])

  step-Inv :
      (s : MemoryStore R) (c : Call R) (cs : List (Call R))
      → AllNew s (c ∷ cs)
      → Inv s
      → Inv (step s c) × AllNew (step s c) cs
  unfolding step close
  step-Inv s (creates a) cs n h = (create-Inv s a n.0 h, n.1)
  step-Inv s (updates a) cs n h = (update-Inv s a h, n.1)
  step-Inv s (deletes id) cs n h = (delete-Inv s id h, n.1)
  step-Inv s (reads id) cs n h = (reads-Inv s id h, n.1)
  step-Inv s (finds email) cs n h = (finds-Inv s email h, n.1)
  step-Inv s (logs log) cs n h = (logs-Inv s log h, n.1)
  step-Inv s (upserts state) cs n h = (upserts-Inv s state h, n.1)
  step-Inv s (forgets id folder) cs n h = (forgets-Inv s id folder h, n.1)
  step-Inv s (configures id configs) cs n h = (configures-Inv s id configs h, n.1)
  step-Inv s (switches id type enabled) cs n h = (switches-Inv s id type enabled h, n.1)
  step-Inv s (lists order offset limit) cs n h = (lists-Inv s order offset limit h, n.1)
  step-Inv s closes cs n h = (nil-Agrees, n.1)

  run-Inv : (s : MemoryStore R) (cs : List (Call R)) → AllNew s cs → Inv s → Inv (run s cs)
  unfolding run
  run-Inv s [] n h = h
  run-Inv s (c ∷ cs) n h = let (h', n') = step-Inv s c cs n h in run-Inv (step s c) cs n' h'

  -- After any history of calls from a new store, in which every account is created under an ID that
  -- is new at that time, the accounts stand under their IDs and the email index leads to exactly
  -- the accounts there are.
  pub run_store-Inv :
      (cs : List (Call R)) → AllNew new_memory_store cs → Inv (run new_memory_store cs)
  run_store-Inv cs n = run-Inv new_memory_store cs n new-Inv
