-- ===== src/Store/Sent.antt =====
-- What the message store returns of the messages that were stored.
use mathlib.Core.List.{append_assoc, append-nil}
use webmail_engine.Base.{
  keep_if, ◌<◌, ◌≡◌, ◌≢◌, refl, ◌∙◌, sym, ap, List, [], ◌∷◌, ◌++◌, some, String, arith, str_eq,
  eq_iff, length, if◌then◌else◌, Bool-cases, inl, inr,
}
use webmail_engine.Base.Dict.{Dict, lookup, lookup-insert, lookup-insert_self, lookup-insert_ne}
use webmail_engine.Base.Int.{pos, two_63}
use webmail_engine.Store.Paging.{page_lem}
use webmail_engine.Store.Messages.{
  Message, MemoryMessageStore, new_memory_message_store, sent_ids, store_sent_message,
  get_sent_messages, held_messages, ids_or_nil,
}

module _ {R : Type 0} where
  pub store_all : MemoryMessageStore R → List (Message R) → MemoryMessageStore R
  store_all s [] = s
  store_all s (m ∷ ms) = store_all (store_sent_message s m) ms

  -- The IDs of one sender's messages, in the order in which they were stored.
  unfoldable pub ids_of : String → List (Message R) → List String
  ids_of a [] = []
  ids_of a (m ∷ ms) =
      let rest = ids_of a ms in if str_eq m.from_address a then m.message_id ∷ rest else rest

  sent_ids-store :
      (s : MemoryMessageStore R) (m : Message R) (a : String)
      → sent_ids (store_sent_message s m) a ≡ sent_ids s a ++ ids_of a (m ∷ [])
  unfolding sent_ids store_sent_message ids_of
  sent_ids-store s m a =
      let more = ids_or_nil (lookup m.from_address s.sent_index) ++ m.message_id ∷ [] in
      rw (lookup-insert m.from_address a more s.sent_index)
        (elim (Bool-cases (str_eq m.from_address a)) [
          | inl same ↦ rw same (
              ap (λ k. ids_or_nil (lookup k s.sent_index) ++ m.message_id ∷ [])
                ((eq_iff m.from_address a).0 same))
          | inr other ↦ rw other (sym (append-nil _))
        ])

  ids_of-cons :
      (a : String) (m : Message R) (ms : List (Message R))
      → ids_of a (m ∷ []) ++ ids_of a ms ≡ ids_of a (m ∷ ms)
  unfolding ids_of
  ids_of-cons a m ms = elim (Bool-cases (str_eq m.from_address a)) [
    | inl same ↦ rw same refl
    | inr other ↦ rw other refl
  ]

  sent_ids-store_all :
      (ms : List (Message R)) (s : MemoryMessageStore R) (a : String)
      → sent_ids (store_all s ms) a ≡ sent_ids s a ++ ids_of a ms
  unfolding store_all
  sent_ids-store_all [] s a = unfold ids_of in sym (append-nil _)
  sent_ids-store_all (m ∷ ms) s a =
      sent_ids-store_all ms (store_sent_message s m) a
      ∙ ap (λ xs. xs ++ ids_of a ms) (sent_ids-store s m a)
      ∙ append_assoc (sent_ids s a) (ids_of a (m ∷ [])) (ids_of a ms)
      ∙ ap (◌++◌ (sent_ids s a)) (ids_of-cons a m ms)

  -- No later message has this ID.
  abbrev pub IsFresh : String → List (Message R) → Type 0
  IsFresh id [] = Unit {0}
  IsFresh id (m ∷ ms) = (id ≢ m.message_id) × IsFresh id ms

  abbrev pub AllDistinct : List (Message R) → Type 0
  AllDistinct [] = Unit {0}
  AllDistinct (m ∷ ms) = IsFresh m.message_id ms × AllDistinct ms

  -- The store holds each of these messages under its ID.
  abbrev AllHeld : Dict (Message R) → List (Message R) → Type 0
  AllHeld d [] = Unit {0}
  AllHeld d (m ∷ ms) = (lookup m.message_id d ≡ some m) × AllHeld d ms

  lookup-store_all :
      (ms : List (Message R)) (s : MemoryMessageStore R) (id : String)
      → IsFresh id ms
      → lookup id (store_all s ms).messages ≡ lookup id s.messages
  unfolding store_all store_sent_message
  lookup-store_all [] s id f = refl
  lookup-store_all (m ∷ ms) s id f =
      lookup-store_all ms (store_sent_message s m) id f.1
      ∙ lookup-insert_ne m.message_id id m s.messages f.0

  store_all-AllHeld :
      (ms : List (Message R)) (s : MemoryMessageStore R)
      → AllDistinct ms
      → AllHeld (store_all s ms).messages ms
  unfolding store_all store_sent_message
  store_all-AllHeld [] s d = tt
  store_all-AllHeld (m ∷ ms) s d = (
    lookup-store_all ms (store_sent_message s m) m.message_id d.0
        ∙ lookup-insert_self m.message_id m s.messages,
    store_all-AllHeld ms (store_sent_message s m) d.1,
  )

  held_messages-ids_of :
      (d : Dict (Message R)) (a : String) (ms : List (Message R))
      → AllHeld d ms
      → held_messages d (ids_of a ms) ≡ keep_if (λ m. str_eq m.from_address a) ms
  unfolding held_messages ids_of keep_if
  held_messages-ids_of d a [] h = refl
  held_messages-ids_of d a (m ∷ ms) h = elim (Bool-cases (str_eq m.from_address a)) [
    | inl same ↦ rw same (rw (h.0, held_messages) (ap (◌∷◌ m) (held_messages-ids_of d a ms h.1)))
    | inr other ↦ rw other (held_messages-ids_of d a ms h.1)
  ]

  -- Of messages with different IDs that were stored in a new store, fewer than 2 ^ 63 from an
  -- address, the sent messages of that address without a limit are those from it, in the order in
  -- which they were stored, and the total is their number.
  pub get_sent_messages_all :
      (ms : List (Message R)) (a : String)
      → AllDistinct ms
      → length (ids_of a ms) < two_63
      → get_sent_messages (store_all new_memory_message_store ms) a (pos 0) (pos 0)
        ≡ (some (keep_if (λ m. str_eq m.from_address a) ms), length (ids_of a ms))
  unfolding get_sent_messages
  get_sent_messages_all ms a d b = rw (sent_ids-store_all ms new_memory_message_store a) (
      unfold sent_ids new_memory_message_store lookup in
      rw (page_lem (ids_of a ms) 0 0 b (omega arith)) (
        ap (λ xs. (some xs, length (ids_of a ms)))
          (held_messages-ids_of (store_all new_memory_message_store ms).messages a ms
            (store_all-AllHeld ms new_memory_message_store d))))
