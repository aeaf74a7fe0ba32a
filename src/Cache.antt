-- ===== src/Cache.antt =====
-- internal/cache/memory_cache.go: `MemoryClient`. A method takes the client and the time that
-- `time.Now()` gives in it; the mutex makes each method one step. `V` is the type of the values. The
-- methods that only answer with a "not implemented" error, `Ping` and `Close` keep no state and are
-- left out.
pub mod Keys
pub mod Invariant
pub mod Expiry
pub mod Eviction
pub mod History
pub mod Scanning
mod Tests
use webmail_engine.Base.{
  ℕ, Bool, true, false, not, ◌&&◌, List, [], ◌∷◌, Option, none, some, String, length, ◌+◌,
  if◌then◌else◌,
}
use webmail_engine.Base.Int.{ℤ, pos, negsuc, ◌+ℤ◌, ◌-ℤ◌, ltb_ℤ, leb_ℤ}
use webmail_engine.Base.Dict.{Dict, lookup, insert, remove, has_key}

-- `entries` is the field `data`. Times are nanoseconds since an epoch, durations their differences.
pub record MemoryClient (V : Type 0) : Type 0 where
  pub entries : Dict V
  pub expires : Dict ℤ
  pub max_size : ℤ

-- `now.After(exp)`, where the key has an expiry.
unfoldable pub is_past : ℤ → Option ℤ → Bool
is_past now none = false
is_past now (some exp) = ltb_ℤ exp now

unfoldable pub count_past : ℤ → Dict ℤ → ℕ
unfolding is_past
count_past now [] = 0
count_past now ((key, exp) ∷ rest) =
    let others = count_past now rest in if is_past now (some exp) then others + 1 else others

module _ {V : Type 0} where
  unfoldable pub new_memory_client : ℤ → MemoryClient V
  new_memory_client size = record { entries = []; expires = []; max_size = size }

  -- A nil slice is `none`.
  unfoldable pub get : ℤ → MemoryClient V → String → Option V
  unfolding is_past lookup
  get now m key = if is_past now (lookup key m.expires) then none else lookup key m.entries

  unfoldable pub exists : ℤ → MemoryClient V → String → Bool
  unfolding is_past lookup
  exists now m key = if is_past now (lookup key m.expires) then false else has_key key m.entries

  unfoldable pub delete : MemoryClient V → String → MemoryClient V
  unfolding remove
  delete m key = record m { entries = remove key m.entries; expires = remove key m.expires }

  -- The first key of the list whose time has passed.
  unfoldable pub first_expired : ℤ → MemoryClient V → List String → Option String
  unfolding is_past lookup
  first_expired now m [] = none
  first_expired now m (key ∷ keys) =
      let later = first_expired now m keys in
      if is_past now (lookup key m.expires) then some key else later

  abbrev pub delete_first : MemoryClient V → List String → MemoryClient V
  delete_first m [] = m
  delete_first m (key ∷ keys) = delete m key

  -- `expiring` and `held` are the orders in which the runtime visits the two maps in this call.
  unfoldable pub evict_oldest : ℤ → List String → List String → MemoryClient V → MemoryClient V
  unfolding delete first_expired
  evict_oldest now expiring held m = elim (first_expired now m expiring) [
    | some key ↦ delete m key
    | none ↦ delete_first m held
  ]

  abbrev pub is_full : MemoryClient V → Bool
  is_full m = ltb_ℤ (pos 0) m.max_size && leb_ℤ m.max_size (pos (length m.entries))

  unfoldable pub make_room :
      ℤ → List String → List String → MemoryClient V → String → MemoryClient V
  unfolding evict_oldest lookup
  make_room now expiring held m key =
      if not (has_key key m.entries) && is_full m then evict_oldest now expiring held m else m

  unfoldable pub store_value : ℤ → MemoryClient V → String → V → ℤ → MemoryClient V
  unfolding insert remove ◌+ℤ◌
  store_value now m key value ttl = record m {
    entries = insert key value m.entries;
    expires = if ltb_ℤ (pos 0) ttl then insert key (now +ℤ ttl) m.expires else remove key m.expires;
  }

  unfoldable pub set :
      ℤ → List String → List String → MemoryClient V → String → V → ℤ → MemoryClient V
  unfolding make_room store_value
  set now expiring held m key value ttl =
      store_value now (make_room now expiring held m key) key value ttl

  unfoldable pub expire : ℤ → MemoryClient V → String → ℤ → MemoryClient V
  unfolding lookup insert ◌+ℤ◌
  expire now m key ttl =
      if has_key key m.entries then record m { expires = insert key (now +ℤ ttl) m.expires } else m

  -- The time that is left; -1 where no expiry is set.
  unfoldable pub ttl : ℤ → MemoryClient V → String → ℤ
  unfolding lookup ◌-ℤ◌
  ttl now m key = elim (lookup key m.expires) [
    | none ↦ negsuc 0
    | some exp ↦
        (let remaining = exp -ℤ now in if leb_ℤ remaining (pos 0) then pos 0 else remaining)
  ]

  -- The number of keys and of those whose time has passed.
  unfoldable pub stats : ℤ → MemoryClient V → ℕ × ℕ
  unfolding count_past
  stats now m = (length m.entries, count_past now m.expires)
