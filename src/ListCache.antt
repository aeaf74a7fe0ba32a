-- ===== src/ListCache.antt =====
-- internal/messagecache/message_cache.go: `MessageListCache`, over the `Cache` of internal/cache/cache.go,
-- which passes its calls on to a client. The encoding of JSON is a parameter. A text stands for a slice of
-- bytes, `none` for a nil one.
pub mod Client
pub mod Reading
pub mod Listing
pub mod Invalidation
mod Tests
use Prim.Native.Char.{Char, code}
use Prim.Native.String.{◌++◌ as text_append}
use webmail_engine.Base.{
  ℕ, ◌+◌, Bool, true, false, not, ◌&&◌, ◌||◌, List, [], ◌∷◌, Option, none, some, String, str_eq,
  ◌==◌, if◌then◌else◌,
}
use webmail_engine.Base.Int.{ℤ, pos, add64, ◌-ℤ◌, ltb_ℤ, eqb_ℤ}
use webmail_engine.ListCache.Client.{
  CacheClient, Cache, cache_get, cache_set, cache_delete, cache_keys,
}
use webmail_engine.CacheKey.Split.{with_colon}

-- The fields that the cache reads, and the others.
pub record MessageList (M : Type 0) : Type 0 where
  pub total_count : ℤ
  pub current_page : ℤ
  pub rest : M

pub record CachedMessageList (M : Type 0) : Type 0 where
  pub message_list : Option (MessageList M)
  pub cached_modseq : ℕ
  pub cached_at : ℤ

pub record CacheStats : Type 0 where
  pub hits : ℤ
  pub misses : ℤ
  pub sets : ℤ

pub record MessageListCache (C : Type 0) : Type 0 where
  pub cache : Option (Cache C)
  pub stats : CacheStats

-- The calls of encoding/json: `none` is an error; `valid` tells whether a text decodes at all.
pub record Json (M : Type 0) : Type 0 where
  pub marshal : CachedMessageList M → Option String
  pub unmarshal : String → Option (CachedMessageList M)
  pub valid : String → Bool

abbrev pub ttl_message_list : ℤ
ttl_message_list = pos 300000000000

unfoldable pub new_message_list_cache : {C : Type 0} → Option (Cache C) → MessageListCache C
new_message_list_cache c = record {
  cache = c;
  stats = record { hits = pos 0; misses = pos 0; sets = pos 0 };
}

-- `hash` is the hexadecimal form of the first bytes of SHA-256.
abbrev pub cursor_hash : (String → String) → String → String
cursor_hash hash cursor = if str_eq cursor "" then "c0" else text_append "c" (hash cursor)

-- `show` is the decimal form of a number.
unfoldable pub build_key :
    (String → String) → (ℤ → String) → String → String → String → ℤ → String → String → ℤ → String
build_key hash show id folder cursor limit sort_by sort_order uid_validity = with_colon "msglist" (
    with_colon id (
      with_colon folder (
        with_colon (cursor_hash hash cursor) (
          with_colon (show limit)
            (with_colon sort_by (with_colon sort_order (text_append "uv" (show uid_validity))))))))

abbrev pub opens_json : Char → Bool
opens_json c = code c == 123 || code c == 91 || code c == 34

-- `bytes` are not nil.
abbrev pub is_valid_json : (String → Bool) → String → Bool
is_valid_json valid String.[] = false
is_valid_json valid (String.◌∷◌ c s) = opens_json c && valid (String.◌∷◌ c s)

-- What `Get` makes of an entry.
pub data Verdict (M : Type 0) : Type 0 where
  hit : MessageList M → Verdict M
  miss corrupt : Verdict M

module _ {M : Type 0} where
  abbrev pub modseq_unchanged : CachedMessageList M → MessageList M → ℕ → ℤ → Bool
  modseq_unchanged cached list modseq count =
      cached.cached_modseq == modseq
      && not (modseq == 0 && cached.cached_modseq == 0 && not (eqb_ℤ list.total_count count))

  unfoldable pub judge : ℤ → ℕ → ℤ → CachedMessageList M → Verdict M
  unfolding ◌-ℤ◌
  judge now modseq count cached = elim cached.message_list [
    | none ↦ corrupt
    | some list ↦
        (if ltb_ℤ ttl_message_list (now -ℤ cached.cached_at)
          then miss
          else if not (modseq_unchanged cached list modseq count) && eqb_ℤ list.current_page (pos 1)
          then miss
          else hit list)
  ]

  unfoldable pub examine : Json M → ℤ → ℕ → ℤ → Option String → Verdict M
  unfolding judge
  examine json now modseq count none = miss
  examine json now modseq count (some bytes) =
      if str_eq bytes ""
      then miss
      else if not (is_valid_json json.valid bytes)
      then corrupt
      else elim (json.unmarshal bytes) [
        | none ↦ corrupt
        | some cached ↦ judge now modseq count cached
      ]

module _ {C : Type 0} where
  unfoldable pub count_hit : MessageListCache C → MessageListCache C
  unfolding add64
  count_hit s = record s { stats = record (s.stats) { hits = add64 s.stats.hits (pos 1) } }

  unfoldable pub count_miss : MessageListCache C → MessageListCache C
  unfolding add64
  count_miss s = record s { stats = record (s.stats) { misses = add64 s.stats.misses (pos 1) } }

  unfoldable pub count_set : MessageListCache C → MessageListCache C
  unfolding add64
  count_set s = record s { stats = record (s.stats) { sets = add64 s.stats.sets (pos 1) } }

module _ {C : Type 0} (ops : CacheClient C) where
  unfoldable pub settle :
      {M : Type 0}
      → MessageListCache C
      → Cache C
      → String
      → Verdict M
      → MessageListCache C × Option (MessageList M)
  unfolding count_hit count_miss cache_delete
  settle s c key (hit list) = (count_hit s, some list)
  settle s c key miss = (count_miss s, none)
  settle s c key corrupt = (count_miss (record s { cache = some (cache_delete ops c key).0 }), none)

  unfoldable pub get :
      {M : Type 0}
      → Json M
      → ℤ
      → MessageListCache C
      → String
      → ℕ
      → ℤ
      → MessageListCache C × Option (MessageList M)
  unfolding examine settle cache_get count_miss
  get json now s key modseq count = elim s.cache [
    | none ↦ (s, none)
    | some c ↦ elim (cache_get ops now c key) [
      | none ↦ (count_miss s, none)
      | some bytes ↦ settle s c key (examine json now modseq count bytes)
    ]
  ]

  -- The last result tells whether the call returns no error.
  unfoldable pub store :
      ℤ
      → MessageListCache C
      → Cache C
      → String
      → (String → Bool)
      → Option String
      → MessageListCache C × Bool
  unfolding cache_set count_set
  store now s c key valid none = (s, false)
  store now s c key valid (some bytes) =
      if str_eq bytes ""
      then (s, true)
      else if not (is_valid_json valid bytes)
      then (s, false)
      else (let (c', ok) = cache_set ops now c key bytes ttl_message_list in
          let s' = record s { cache = some c' } in if ok then (count_set s', true) else (s', false))

  unfoldable pub set :
      {M : Type 0}
      → Json M
      → ℤ
      → MessageListCache C
      → String
      → Option (MessageList M)
      → ℕ
      → MessageListCache C × Bool
  unfolding store
  set json now s key list modseq = elim s.cache [
    | none ↦ (s, true)
    | some c ↦ elim list [
      | none ↦ (s, true)
      | some l ↦
          store now s c key json.valid (
            json.marshal
              (record { message_list = some l; cached_modseq = modseq; cached_at = now }))
    ]
  ]

  unfoldable pub delete : MessageListCache C → String → MessageListCache C × Bool
  unfolding cache_delete
  delete s key = elim s.cache [
    | none ↦ (s, true)
    | some c ↦ (record s { cache = some (cache_delete ops c key).0 }, (cache_delete ops c key).1)
  ]

  -- Errors of single deletions are only logged.
  unfoldable pub delete_all : Cache C → List String → Cache C
  unfolding cache_delete
  delete_all c [] = c
  delete_all c (key ∷ keys) = delete_all (cache_delete ops c key).0 keys

  unfoldable pub invalidate : ℤ → MessageListCache C → String → MessageListCache C × Bool
  unfolding cache_keys delete_all
  invalidate now s pattern = elim s.cache [
    | none ↦ (s, true)
    | some c ↦ elim (cache_keys ops now c pattern) [
      | none ↦ (s, false)
      | some keys ↦ (record s { cache = some (delete_all c keys) }, true)
    ]
  ]

  unfoldable pub invalidate_folder :
      ℤ → MessageListCache C → String → String → MessageListCache C × Bool
  unfolding invalidate
  invalidate_folder now s id folder =
      invalidate now s (with_colon "msglist" (with_colon id (with_colon folder "*")))

  unfoldable pub invalidate_account : ℤ → MessageListCache C → String → MessageListCache C × Bool
  unfolding invalidate
  invalidate_account now s id = invalidate now s (with_colon "msglist" (with_colon id "*"))
