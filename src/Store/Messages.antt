-- ===== src/Store/Messages.antt =====
-- internal/store/memory_store.go: `MemoryMessageStore`. `R` is the type of the fields of a message
-- that the store never reads.
use webmail_engine.Base.{ℕ, List, [], ◌∷◌, ◌++◌, Option, none, some, String, length}
use webmail_engine.Base.Int.{ℤ}
use webmail_engine.Base.Dict.{Dict, lookup, insert}
use webmail_engine.Store.Types.{Result, ok, err, not_found}
use webmail_engine.Store.Page.{page}

pub record Message (R : Type 0) : Type 0 where
  pub message_id : String
  pub from_address : String
  pub content : R

pub record MemoryMessageStore (R : Type 0) : Type 0 where
  pub messages : Dict (Message R)
  pub sent_index : Dict (List String)

abbrev pub ids_or_nil : Option (List String) → List String
ids_or_nil none = []
ids_or_nil (some ids) = ids

module _ {R : Type 0} where
  unfoldable pub new_memory_message_store : MemoryMessageStore R
  new_memory_message_store = record { messages = []; sent_index = [] }

  -- A missing key of the index reads as an empty slice.
  unfoldable pub sent_ids : MemoryMessageStore R → String → List String
  unfolding lookup
  sent_ids s account_id = ids_or_nil (lookup account_id s.sent_index)

  unfoldable pub store_sent_message : MemoryMessageStore R → Message R → MemoryMessageStore R
  unfolding insert sent_ids
  store_sent_message s msg = record {
    messages = insert msg.message_id msg s.messages;
    sent_index =
        insert msg.from_address (sent_ids s msg.from_address ++ msg.message_id ∷ []) s.sent_index;
  }

  unfoldable pub get_message_by_id : MemoryMessageStore R → String → Result (Message R)
  unfolding lookup
  get_message_by_id s message_id = elim (lookup message_id s.messages) [
    | none ↦ err not_found
    | some msg ↦ ok msg
  ]

  -- The loop over the page of IDs: those that the store does not hold are passed over.
  unfoldable pub held_messages : Dict (Message R) → List String → List (Message R)
  unfolding lookup
  held_messages m [] = []
  held_messages m (id ∷ ids) =
      let rest = held_messages m ids in elim (lookup id m) [ none ↦ rest | some msg ↦ msg ∷ rest ]

  -- `none` is a panic of the slice expression or of `make` with a negative capacity, which fail
  -- at the same pages.
  unfoldable pub get_sent_messages :
      MemoryMessageStore R → String → ℤ → ℤ → Option (List (Message R)) × ℕ
  unfolding sent_ids page held_messages
  get_sent_messages s account_id limit offset =
      let ids = sent_ids s account_id in
      (
        elim (page ids offset limit) [
          | none ↦ none
          | some shown ↦ some (held_messages s.messages shown)
        ],
        length ids,
      )
