-- ===== src/Store/Tests.antt =====
-- The theorems on the memory store at concrete inputs.
use webmail_engine.Base.{
  ℕ, ◌≡◌, ◌≢◌, refl, ◌⊎◌, inl, true, false, List, [], ◌∷◌, none, some, String, arith, eq_iff,
  keep_if,
}
use webmail_engine.Base.Int.{pos}
use webmail_engine.Base.Dict.{lookup, insert, remove, has_key}
use webmail_engine.Store.Types.{
  not_found, already_exists, store_unavailable, ok, err, Account, AccountProcessorConfig,
  FolderSyncState, MemoryStore,
}
use webmail_engine.Store.{new_memory_store, get_by_id, get_by_email, create, update, delete, close}
use webmail_engine.Store.Records.{get_folder_sync_state, upsert_folder_sync_state}
use webmail_engine.Store.Messages.{Message, new_memory_message_store, get_sent_messages}
use webmail_engine.Store.Page.{page}
use webmail_engine.Store.Paging.{page_lem}
use webmail_engine.Store.Index.{Inv}
use webmail_engine.Store.Accounts.{create_lem, update_email_lem, delete_lem}
use webmail_engine.Store.Closed.{close_lem}
use webmail_engine.Store.History.{Call, creates, updates, deletes, finds, run, step, run_store-Inv}
use webmail_engine.Store.Folders.{get-upsert_folder_sync_state}
use webmail_engine.Store.Sent.{store_all, ids_of, get_sent_messages_all}

abbrev ann : Account ℕ
ann = record { id = "1"; email = "ann@x"; processor_configs = some 0; rest = 0 }

abbrev bob : Account ℕ
bob = record { id = "2"; email = "bob@x"; processor_configs = none; rest = 0 }

abbrev renamed : Account ℕ
renamed = record ann { email = "ann@y" }

abbrev spam_filter : AccountProcessorConfig
spam_filter = record { type = "spam"; meta = ""; enabled = false; priority = pos 1 }

abbrev empty_store : MemoryStore ℕ
empty_store = record {
  accounts = [];
  email_index = [];
  closed = false;
  audit_logs = [];
  folder_sync_state = [];
  stats = record { creates = pos 0; updates = pos 0; deletes = pos 0; gets = pos 0; lists = pos 0 };
  arrays = (spam_filter ∷ []) ∷ [];
}

abbrev with_ann : MemoryStore ℕ
with_ann = record empty_store { accounts = ("1", ann) ∷ []; email_index = ("ann@x", "1") ∷ [] }

abbrev a_day : List (Call ℕ)
a_day =
    creates (some ann)
    ∷ creates (some bob)
    ∷ updates (some renamed)
    ∷ finds "ann@y"
    ∷ deletes "2"
    ∷ []

run_store-Inv_example : Inv (run new_memory_store a_day)
unfolding new_memory_store create insert lookup step update remove get_by_email delete
run_store-Inv_example = run_store-Inv a_day (refl, (refl, (tt, (tt, (tt, tt)))))

create_lem_example :
    ((has_key "ann@x" empty_store.email_index ≡ true)
      × (create empty_store (some ann) ≡ (empty_store, err already_exists)))
    ⊎ ((has_key "ann@x" empty_store.email_index ≡ false)
        × ((create empty_store (some ann)).1 ≡ ok tt)
        × ((get_by_id (create empty_store (some ann)).0 "1").1 ≡ ok ann)
        × ((get_by_email (create empty_store (some ann)).0 "ann@x").1 ≡ ok ann)
        × ((j : String)
            → j ≢ "1"
            → lookup j (create empty_store (some ann)).0.accounts ≡ lookup j empty_store.accounts)
        × ((e : String)
            → e ≢ "ann@x"
            → lookup e (create empty_store (some ann)).0.email_index
              ≡ lookup e empty_store.email_index)
        × ((e : String)
            → e ≢ "ann@x"
            → lookup e empty_store.email_index ≢ some "1"
            → (get_by_email (create empty_store (some ann)).0 e).1
              ≡ (get_by_email empty_store e).1))
create_lem_example = create_lem empty_store ann refl

different_emails : ◌≢◌ {A = String} "ann@x" "ann@y"
different_emails = ground (arith, eq_iff "ann@x" "ann@y")

update_email_lem_example :
    ((has_key "ann@y" with_ann.email_index ≡ true)
      × (update with_ann (some renamed) ≡ (with_ann, err already_exists)))
    ⊎ ((has_key "ann@y" with_ann.email_index ≡ false)
        × ((update with_ann (some renamed)).1 ≡ ok tt)
        × ((get_by_id (update with_ann (some renamed)).0 "1").1 ≡ ok renamed)
        × ((get_by_email (update with_ann (some renamed)).0 "ann@y").1 ≡ ok renamed)
        × ((get_by_email (update with_ann (some renamed)).0 "ann@x").1 ≡ err not_found))
unfolding lookup
update_email_lem_example = update_email_lem with_ann renamed ann refl refl different_emails

delete_lem_example : (get_by_email (delete with_ann "1").0 "ann@x").1 ≡ err not_found
unfolding lookup
delete_lem_example = (delete_lem with_ann "1" ann refl refl).2

close_lem_example : get_by_id (close with_ann) "1" ≡ (close with_ann, err store_unavailable)
close_lem_example =
    (close_lem with_ann "1" "ann@x" "spam" [] (pos 0) (pos 0) none
      (record { log_id = pos 0; log_account = "1"; event = ""; details = "" }) none [] true).0

abbrev inbox : String → String → FolderSyncState
inbox id name = record {
  account_id = id;
  folder_name = name;
  uid_validity = 1;
  last_synced_uid = 9;
  last_sync_time = 0;
  message_count = 3;
  is_initialized = true;
}

get-upsert_folder_sync_state_example :
    get_folder_sync_state
      (upsert_folder_sync_state with_ann (some (inbox "1" "INBOX"))).0
      "1"
      "INBOX"
    ≡ ok (inbox "1" "INBOX")
get-upsert_folder_sync_state_example =
    (get-upsert_folder_sync_state with_ann (inbox "1" "INBOX") "2" "INBOX" refl (omega arith)
      (omega arith) (inl (ground (arith, eq_iff "1" "2")))).0

abbrev five : List ℕ
five = 1 ∷ 2 ∷ 3 ∷ 4 ∷ 5 ∷ []

page_lem_example : page five (pos 2) (pos 2) ≡ some (3 ∷ 4 ∷ [])
page_lem_example = page_lem five 2 2 (omega arith) (omega arith)

abbrev note : String → String → Message ℕ
note id from = record { message_id = id; from_address = from; content = 0 }

get_sent_messages_all_example :
    get_sent_messages
      (store_all new_memory_message_store (note "a" "ann@x" ∷ note "b" "bob@x" ∷ []))
      "ann@x"
      (pos 0)
      (pos 0)
    ≡ (some (note "a" "ann@x" ∷ []), 1)
unfolding keep_if ids_of
get_sent_messages_all_example =
    get_sent_messages_all (note "a" "ann@x" ∷ note "b" "bob@x" ∷ []) "ann@x"
      (((λ e. ground (arith, eq_iff "a" "b")), tt), (tt, tt)) (omega arith)
