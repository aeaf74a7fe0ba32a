-- ===== src/Store/Folders.antt =====
-- The keys of the folder sync states.
use Prim.Native.Char.{Char, code}
use Prim.Native.String.{◌++◌ as text_append}
use text.Mathlib.TextLemmas.{
  append_assoc, cons-append, nil-append, head-eq_of_cons-eq, tail-eq_of_cons-eq,
}
use mathlib.Core.Path.{ap₂}
use webmail_engine.Base.{◌≡◌, ◌≢◌, refl, ◌∙◌, sym, ap, ◌⊎◌, inl, inr, false, some, String, if_false}
use webmail_engine.Base.Dict.{lookup, insert, lookup-insert_self, lookup-insert_ne}
use webmail_engine.Store.Types.{ok, FolderSyncState, MemoryStore}
use webmail_engine.Store.Records.{
  sync_key, state_or_missing, get_folder_sync_state, upsert_folder_sync_state,
}

-- A text with no colon.
abbrev pub Plain : String → Type 0
Plain String.[] = Unit {0}
Plain (String.◌∷◌ c s) = (code c ≢ 58) × Plain s

key_nil : (f : String) → sync_key String.[] f ≡ String.◌∷◌ ":" f
key_nil f =
    nil-append (text_append ":" f)
    ∙ cons-append ":" String.[] f
    ∙ ap (String.◌∷◌ ":") (nil-append f)

key_cons : (c : Char) (s f : String) → sync_key (String.◌∷◌ c s) f ≡ String.◌∷◌ c (sync_key s f)
key_cons c s f = cons-append c s (text_append ":" f)

colon_head :
    {c : Char} {s f : String} → Path String (String.◌∷◌ c s) (String.◌∷◌ ":" f) → code c ≡ 58
colon_head e = ap code (head-eq_of_cons-eq e)

-- Account IDs without a colon keep the keys of different folders apart.
pub sync_key_inj :
    (a b f g : String) → Plain a → Plain b → sync_key a f ≡ sync_key b g → (a ≡ b) × (f ≡ g)
sync_key_inj String.[] String.[] f g p q e =
    (refl, tail-eq_of_cons-eq (sym (key_nil f) ∙ e ∙ key_nil g))
sync_key_inj String.[] (String.◌∷◌ d t) f g p q e =
    absurd (q.0 (colon_head (sym (key_cons d t g) ∙ sym e ∙ key_nil f)))
sync_key_inj (String.◌∷◌ c s) String.[] f g p q e =
    absurd (p.0 (colon_head (sym (key_cons c s f) ∙ e ∙ key_nil g)))
sync_key_inj (String.◌∷◌ c s) (String.◌∷◌ d t) f g p q e =
    let e' = sym (key_cons c s f) ∙ e ∙ key_cons d t g in
    let (same, folder) = sync_key_inj s t f g p.1 q.1 (tail-eq_of_cons-eq e') in
    (ap₂ String.◌∷◌ (head-eq_of_cons-eq e') same, folder)

module _ {R : Type 0} where
  get_open :
      (s : MemoryStore R) (id folder : String)
      → s.closed ≡ false
      → get_folder_sync_state s id folder
        ≡ state_or_missing (lookup (sync_key id folder) s.folder_sync_state)
  unfolding get_folder_sync_state
  get_open s id folder o = if_false s.closed _ _ o

  upserted : MemoryStore R → FolderSyncState → MemoryStore R
  upserted s state = record s {
    folder_sync_state =
        insert (sync_key state.account_id state.folder_name) state s.folder_sync_state;
  }

  upsert_open :
      (s : MemoryStore R) (state : FolderSyncState)
      → s.closed ≡ false
      → upsert_folder_sync_state s (some state) ≡ (upserted s state, ok tt)
  unfolding upsert_folder_sync_state upserted
  upsert_open s state o = if_false s.closed _ _ o

  get-upserted :
      (s : MemoryStore R) (state : FolderSyncState) (id folder : String)
      → s.closed ≡ false
      → sync_key id folder ≡ sync_key state.account_id state.folder_name
      → get_folder_sync_state (upserted s state) id folder ≡ ok state
  unfolding upserted
  get-upserted s state id folder o e =
      get_open (upserted s state) id folder o
      ∙ (rw e (
          ap state_or_missing (
            lookup-insert_self (sync_key state.account_id state.folder_name) state
              s.folder_sync_state)))

  get-upserted_ne :
      (s : MemoryStore R) (state : FolderSyncState) (id folder : String)
      → s.closed ≡ false
      → sync_key id folder ≢ sync_key state.account_id state.folder_name
      → get_folder_sync_state (upserted s state) id folder ≡ get_folder_sync_state s id folder
  unfolding upserted
  get-upserted_ne s state id folder o ne =
      get_open (upserted s state) id folder o
      ∙ ap state_or_missing (
          lookup-insert_ne (sync_key state.account_id state.folder_name) (sync_key id folder) state
            s.folder_sync_state ne)
      ∙ sym (get_open s id folder o)

  -- On an open store, a folder sync state that was stored is read back for its account and folder.
  -- Where neither account ID holds a colon, another account or another folder reads what it read
  -- before.
  pub get-upsert_folder_sync_state :
      (s : MemoryStore R) (state : FolderSyncState) (id folder : String)
      → s.closed ≡ false
      → Plain id
      → Plain state.account_id
      → (id ≢ state.account_id) ⊎ (folder ≢ state.folder_name)
      → let s' = (upsert_folder_sync_state s (some state)).0 in
        (get_folder_sync_state s' state.account_id state.folder_name ≡ ok state)
        × (get_folder_sync_state s' id folder ≡ get_folder_sync_state s id folder)
  get-upsert_folder_sync_state s state id folder o p q other =
      let apart : sync_key id folder ≢ sync_key state.account_id state.folder_name = λ e.
        let (same, name) = sync_key_inj id state.account_id folder state.folder_name p q e in
        elim other [ inl ne ↦ ne same | inr ne ↦ ne name ] in
      rw (upsert_open s state o) (
        get-upserted s state state.account_id state.folder_name o refl,
        get-upserted_ne s state id folder o apart,
      )

  -- The key of a folder is the account ID and the name with a colon between them. On an open store,
  -- the state of an account whose ID is `a`, a colon and `b` is also read for the account `a`, as
  -- that of the folder whose name is `b`, a colon and the name.
  pub folder_sync_state_collides :
      (s : MemoryStore R) (state : FolderSyncState) (a b : String)
      → s.closed ≡ false
      → state.account_id ≡ text_append a (text_append ":" b)
      → get_folder_sync_state
          (upsert_folder_sync_state s (some state)).0
          a
          (text_append b (text_append ":" state.folder_name))
        ≡ ok state
  folder_sync_state_collides s state a b o e = rw (upsert_open s state o) (
      get-upserted s state a (text_append b (text_append ":" state.folder_name)) o (
        rw e (
          sym (
            append_assoc a (text_append ":" b) (text_append ":" state.folder_name)
            ∙ ap (text_append a) (append_assoc ":" b (text_append ":" state.folder_name))))))
