-- ===== src/ListCache/Invalidation.antt =====
-- internal/messagecache/message_cache.go: `InvalidateFolder` and `InvalidateAccount` over the in-memory
-- client.
use Prim.Native.String.{len, slice, ◌++◌ as text_append}
use text.Mathlib.Text.{starts_with}
use text.Mathlib.TextLemmas.{append_assoc}
use text.Mathlib.TextPositions.{
  len-append, slice-append_left, slice-append_right, starts_with-append,
}
use webmail_engine.Base.{
  ◌-◌, ◌≡◌, refl, ◌∙◌, sym, ap, Bool, true, false, List, [], ◌∷◌, Option, none, some, String, arith,
  str_eq, if_true, if◌then◌else◌,
}
use webmail_engine.Base.Int.{ℤ, ◌≤ℤ◌}
use webmail_engine.Cache.{MemoryClient, get as memory_get, delete as memory_delete}
use webmail_engine.Cache.Keys.{cut_star, matches, keys as memory_keys}
use webmail_engine.CacheKey.Split.{with_colon}
use webmail_engine.ListCache.Client.{
  CacheClient, Cache, memory_ops, cache_get, cache_delete, cache_keys,
}
use webmail_engine.ListCache.{
  MessageListCache, cursor_hash, build_key, delete_all, invalidate, invalidate_folder,
}
use webmail_engine.ListCache.Listing.{remaining, get-remaining_keys}

some_if :
    (b : Bool) (x : Option String)
    → ◌≡◌ {A = Option (Option String)}
        (some (if b then none else x))
        (if b then some none else some x)
some_if true x = refl
some_if false x = refl

matches_star : (x key : String) → matches (text_append x "*") key ≡ starts_with key x
unfolding matches cut_star
matches_star x key =
    let pattern = text_append x "*" in
    let cut_at : len pattern - 1 ≡ len x = omega (arith, len-append x "*") in
    let star : slice pattern (len pattern - 1) (len pattern) ≡ "*" =
      rw (cut_at, len-append x "*") (slice-append_right x "*") in
    let head : slice pattern 0 (len pattern - 1) ≡ x = rw cut_at (slice-append_left x "*") in
    let found : cut_star pattern ≡ some x =
      if_true (str_eq (slice pattern (len pattern - 1) (len pattern)) "*") _ _ (rw star refl)
      ∙ ap some head in
    rw (found, matches) refl

-- What the keys of a folder begin with.
abbrev pub folder_prefix : String → String → String
folder_prefix id folder = with_colon "msglist" (with_colon id (text_append folder ":"))

with_colon-append :
    (a b c : String) → with_colon a (text_append b c) ≡ text_append (with_colon a b) c
with_colon-append a b c =
    ap (text_append a) (sym (append_assoc ":" b c)) ∙ sym (append_assoc a (text_append ":" b) c)

folder_key_parts :
    (id folder tail : String)
    → with_colon "msglist" (with_colon id (with_colon folder tail))
      ≡ text_append (folder_prefix id folder) tail
folder_key_parts id folder tail =
    ap (λ (t : String). with_colon "msglist" (with_colon id t)) (sym (append_assoc folder ":" tail))
    ∙ ap (with_colon "msglist") (with_colon-append id (text_append folder ":") tail)
    ∙ with_colon-append "msglist" (with_colon id (text_append folder ":")) tail

-- What the client holds under a key.
unfoldable pub held :
    {C : Type 0} → CacheClient C → ℤ → MessageListCache C → String → Option (Option String)
held ops now s key = elim s.cache [ none ↦ none | some c ↦ cache_get ops now c key ]

module _ (order : MemoryClient String → List String) where
  delete_all-remaining :
      (ks : List String) (m : MemoryClient String)
      → delete_all (memory_ops order) (record { client = some m }) ks
        ≡ record { client = some (remaining m ks) }
  unfolding delete_all cache_delete remaining
  delete_all-remaining [] m = refl
  delete_all-remaining (k ∷ ks) m = delete_all-remaining ks (memory_delete m k)

  invalidated :
      ℤ
      → MessageListCache (MemoryClient String)
      → MemoryClient String
      → String
      → MessageListCache (MemoryClient String)
  invalidated now s m pattern = record s {
    cache = some (record { client = some (remaining m (memory_keys now m pattern)) });
  }

  invalidate-invalidated :
      (now : ℤ) (s : MessageListCache (MemoryClient String)) (m : MemoryClient String)
      (pattern : String)
      → s.cache ≡ some (record { client = some m })
      → invalidate (memory_ops order) now s pattern ≡ (invalidated now s m pattern, true)
  unfolding invalidate cache_keys invalidated
  invalidate-invalidated now s m pattern has =
      let done : Cache (MemoryClient String)
          → List String
          → MessageListCache (MemoryClient String) × Bool =
        λ c ks. (record s { cache = some (delete_all (memory_ops order) c ks) }, true) in
      ap
        (λ (o : Option (Cache (MemoryClient String))).
          elim o as (λ _. MessageListCache (MemoryClient String) × Bool) [
            | none ↦ (s, true)
            | some c ↦
                elim (cache_keys (memory_ops order) now c pattern)
                  as (λ _. MessageListCache (MemoryClient String) × Bool) [
                    | none ↦ (s, false)
                    | some ks ↦ done c ks
                  ]
          ])
        has
      ∙ ap (λ (c : Cache (MemoryClient String)). (record s { cache = some c }, true))
          (delete_all-remaining (memory_keys now m pattern) m)

  -- `InvalidateFolder` over the in-memory client returns no error, and from then on nothing is held under a
  -- key that begins with the prefix of the folder; under every other key what is held stays.
  pub invalidate_folder-held :
      (now later : ℤ) (s : MessageListCache (MemoryClient String)) (m : MemoryClient String)
      (id folder key : String)
      → s.cache ≡ some (record { client = some m })
      → now ≤ℤ later
      → let ops = memory_ops order in
        let (s', ok) = invalidate_folder ops now s id folder in
        (ok ≡ true)
        × (held ops later s' key ≡ (
            if starts_with key (folder_prefix id folder) then some none else held ops later s key))
  unfolding invalidate_folder held invalidated cache_get
  invalidate_folder-held now later s m id folder key has le =
      let pattern = with_colon "msglist" (with_colon id (with_colon folder "*")) in
      let prefixed : matches pattern key ≡ starts_with key (folder_prefix id folder) =
        ap (λ (t : String). matches t key) (folder_key_parts id folder "*")
        ∙ matches_star (folder_prefix id folder) key in
      let begins = starts_with key (folder_prefix id folder) in
      let held_before : held (memory_ops order) later s key ≡ some (memory_get later m key) =
        ap
          (λ (o : Option (Cache (MemoryClient String))). elim o as (λ _. Option (Option String)) [
            | none ↦ none
            | some c ↦ cache_get (memory_ops order) later c key
          ])
          has in
      rw (invalidate-invalidated now s m pattern has) (
        refl,
        ap some (
              get-remaining_keys now later m pattern key le
              ∙ ap (λ (b : Bool). if b then none else memory_get later m key) prefixed)
            ∙ some_if begins (memory_get later m key)
            ∙ ap (λ (h : Option (Option String)). if begins then some none else h)
                (sym held_before),
      )

  -- After `InvalidateFolder` over the in-memory client nothing is held under a key that `BuildKey` builds for
  -- the folder, whatever the cursor, the limit, the sorting and the validity of the UIDs.
  pub invalidate_folder-build_key :
      (now later : ℤ) (s : MessageListCache (MemoryClient String)) (m : MemoryClient String)
      (id folder : String) (hash : String → String) (show : ℤ → String) (cursor : String)
      (limit : ℤ) (sort_by sort_order : String) (uid_validity : ℤ)
      → s.cache ≡ some (record { client = some m })
      → now ≤ℤ later
      → held
          (memory_ops order)
          later
          (invalidate_folder (memory_ops order) now s id folder).0
          (build_key hash show id folder cursor limit sort_by sort_order uid_validity)
        ≡ some none
  unfolding build_key
  invalidate_folder-build_key now later s m id folder hash show cursor limit sort_by sort_order
        uid_validity has le =
      let key = build_key hash show id folder cursor limit sort_by sort_order uid_validity in
      let tail = with_colon (cursor_hash hash cursor) (
        with_colon (show limit)
          (with_colon sort_by (with_colon sort_order (text_append "uv" (show uid_validity))))) in
      (invalidate_folder-held now later s m id folder key has le).1
      ∙ if_true (starts_with key (folder_prefix id folder)) _ _ (
          ap (λ (k : String). starts_with k (folder_prefix id folder))
            (folder_key_parts id folder tail)
          ∙ starts_with-append (folder_prefix id folder) tail)
