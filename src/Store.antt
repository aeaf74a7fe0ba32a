-- ===== src/Store.antt =====
-- internal/store/memory_store.go: the accounts of `MemoryStore`. A method takes the store and
-- returns the new one with its result; the mutex makes each method one step.
pub mod Types
pub mod Page
pub mod Records
pub mod Messages
pub mod Paging
pub mod Index
pub mod Accounts
pub mod Closed
pub mod Sent
pub mod History
pub mod Folders
pub mod Sharing
mod Tests
use webmail_engine.Base.{
  ℕ, Bool, true, false, List, [], ◌∷◌, Option, none, some, String, length, not, str_eq,
  if◌then◌else◌,
}
use webmail_engine.Base.Int.{ℤ, pos, add64}
use webmail_engine.Base.Dict.{Dict, lookup, insert, remove, has_key}
use Types.{
  StoreError, not_found, already_exists, store_unavailable, invalid_config, Result, ok, err,
  Account, MemoryStore, MemoryStoreStats,
}
use Page.{page}

module _ {R : Type 0} where
  unfoldable pub new_memory_store : MemoryStore R
  new_memory_store = record {
    accounts = [];
    email_index = [];
    closed = false;
    audit_logs = [];
    folder_sync_state = [];
    stats = record {
      creates = pos 0;
      updates = pos 0;
      deletes = pos 0;
      gets = pos 0;
      lists = pos 0;
    };
    arrays = [];
  }

  count_get : MemoryStore R → MemoryStore R
  unfolding add64
  count_get s = record s { stats = record (s.stats) { gets = add64 s.stats.gets (pos 1) } }

  -- `copyAccount` returns an equal value; the slice of processor configs is shared.
  found : MemoryStore R → Option (Account R) → MemoryStore R × Result (Account R)
  unfolding count_get
  found s none = (s, err not_found)
  found s (some account) = (count_get s, ok account)

  unfoldable pub get_by_id : MemoryStore R → String → MemoryStore R × Result (Account R)
  unfolding found lookup
  get_by_id s id = if s.closed then (s, err store_unavailable) else found s (lookup id s.accounts)

  unfoldable pub get_by_email : MemoryStore R → String → MemoryStore R × Result (Account R)
  unfolding found lookup
  get_by_email s email =
      if s.closed then (s, err store_unavailable) else elim (lookup email s.email_index) [
        | none ↦ (s, err not_found)
        | some id ↦ found s (lookup id s.accounts)
      ]

  -- `order` is the order in which the runtime visits the map of accounts in this call. `none` is a
  -- panic.
  unfoldable pub list :
      MemoryStore R
      → List (Account R)
      → ℤ
      → ℤ
      → MemoryStore R × Result (Option (List (Account R)) × ℕ)
  unfolding page add64
  list s order offset limit = if s.closed then (s, err store_unavailable) else (
    record s { stats = record (s.stats) { lists = add64 s.stats.lists (pos 1) } },
    ok (page order offset limit, length s.accounts),
  )

  unfoldable pub add_account : MemoryStore R → Account R → MemoryStore R
  unfolding insert add64
  add_account s account = record s {
    accounts = insert account.id account s.accounts;
    email_index = insert account.email account.id s.email_index;
    stats = record (s.stats) { creates = add64 s.stats.creates (pos 1) };
  }

  -- A nil account is `none`.
  unfoldable pub create : MemoryStore R → Option (Account R) → MemoryStore R × Result (Unit {0})
  unfolding add_account lookup
  create s none = (s, err (if s.closed then store_unavailable else invalid_config))
  create s (some account) =
      if s.closed
      then (s, err store_unavailable)
      else if has_key account.email s.email_index
      then (s, err already_exists)
      else (add_account s account, ok tt)

  unfoldable pub replace : MemoryStore R → Account R → Dict String → MemoryStore R
  unfolding insert add64
  replace s account index = record s {
    accounts = insert account.id account s.accounts;
    email_index = index;
    stats = record (s.stats) { updates = add64 s.stats.updates (pos 1) };
  }

  unfoldable pub update_existing :
      MemoryStore R → Account R → Account R → MemoryStore R × Result (Unit {0})
  unfolding replace lookup remove insert
  update_existing s account existing =
      if str_eq existing.email account.email
      then (replace s account s.email_index, ok tt)
      else if has_key account.email s.email_index
      then (s, err already_exists)
      else (
        replace s account (insert account.email account.id (remove existing.email s.email_index)),
        ok tt,
      )

  unfoldable pub update : MemoryStore R → Option (Account R) → MemoryStore R × Result (Unit {0})
  unfolding update_existing lookup
  update s none = (s, err (if s.closed then store_unavailable else invalid_config))
  update s (some account) =
      if s.closed then (s, err store_unavailable) else elim (lookup account.id s.accounts) [
        | none ↦ (s, err not_found)
        | some existing ↦ update_existing s account existing
      ]

  unfoldable pub drop_account : MemoryStore R → String → Account R → MemoryStore R
  unfolding remove add64
  drop_account s id account = record s {
    accounts = remove id s.accounts;
    email_index = remove account.email s.email_index;
    stats = record (s.stats) { deletes = add64 s.stats.deletes (pos 1) };
  }

  unfoldable pub delete : MemoryStore R → String → MemoryStore R × Result (Unit {0})
  unfolding drop_account lookup
  delete s id = if s.closed then (s, err store_unavailable) else elim (lookup id s.accounts) [
    | none ↦ (s, err not_found)
    | some account ↦ (drop_account s id account, ok tt)
  ]

  unfoldable pub close : MemoryStore R → MemoryStore R
  close s = record s { closed = true; accounts = []; email_index = [] }
