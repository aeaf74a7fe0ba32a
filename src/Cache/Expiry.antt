-- ===== src/Cache/Expiry.antt =====
-- internal/cache/memory_cache.go: what a stored value reads as later.
use webmail_engine.Base.{
  ◌≡◌, ◌≢◌, refl, true, false, not, ◌&&◌, ◌⊎◌, inl, inr, List, none, some, String, arith, eq_iff,
  str_eq, Bool-cases, if◌then◌else◌,
}
use webmail_engine.Base.Int.{ℤ, pos, ◌+ℤ◌, ltb_ℤ}
use webmail_engine.Base.Dict.{
  has_key, lookup-insert, lookup-remove, lookup-insert_self, lookup-remove_self,
}
use webmail_engine.Cache.{MemoryClient, is_past, get, make_room, store_value, set, is_full}

module _ {V : Type 0} where
  get-store_value :
      (now later : ℤ) (m : MemoryClient V) (key : String) (value : V) (ttl : ℤ)
      → get later (store_value now m key value ttl) key
        ≡ (if ltb_ℤ (pos 0) ttl && ltb_ℤ (now +ℤ ttl) later then none else some value)
  unfolding get store_value is_past
  get-store_value now later m key value ttl = elim (Bool-cases (ltb_ℤ (pos 0) ttl)) [
    | inl timed ↦
        rw
          (
            timed,
            lookup-insert_self key (now +ℤ ttl) m.expires,
            lookup-insert_self key value m.entries,
          )
          refl
    | inr untimed ↦
        rw (untimed, lookup-remove_self key m.expires, lookup-insert_self key value m.entries) refl
  ]

  -- A value that was set is read back until its time to live is over, and for ever where the time
  -- to live is not positive; whatever the cache held before, and whatever was evicted for it.
  pub get-set :
      (now later : ℤ) (expiring visited : List String) (m : MemoryClient V) (key : String)
      (value : V) (ttl : ℤ)
      → get later (set now expiring visited m key value ttl) key
        ≡ (if ltb_ℤ (pos 0) ttl && ltb_ℤ (now +ℤ ttl) later then none else some value)
  unfolding set
  get-set now later expiring visited m key value ttl =
      get-store_value now later (make_room now expiring visited m key) key value ttl

  pub get-store_value_ne :
      (now later : ℤ) (m : MemoryClient V) (key other : String) (value : V) (ttl : ℤ)
      → other ≢ key
      → get later (store_value now m key value ttl) other ≡ get later m other
  unfolding get store_value
  get-store_value_ne now later m key other value ttl ne = elim (Bool-cases (ltb_ℤ (pos 0) ttl)) [
    | inl timed ↦
        rw
          (
            timed,
            lookup-insert key other (now +ℤ ttl) m.expires,
            lookup-insert key other value m.entries,
          )
          (let differ : str_eq key other ≡ false = ground (arith, eq_iff key other) in
            rw differ refl)
    | inr untimed ↦
        rw (untimed, lookup-remove key other m.expires, lookup-insert key other value m.entries)
          (let differ : str_eq key other ≡ false = ground (arith, eq_iff key other) in
            rw differ refl)
  ]

  -- Where the key is held already or the cache has room, `Set` changes what no other key reads as,
  -- at any time.
  pub get-set_ne :
      (now later : ℤ) (expiring visited : List String) (m : MemoryClient V) (key other : String)
      (value : V) (ttl : ℤ)
      → other ≢ key
      → (has_key key m.entries ≡ true) ⊎ (is_full m ≡ false)
      → get later (set now expiring visited m key value ttl) other ≡ get later m other
  unfolding set make_room
  get-set_ne now later expiring visited m key other value ttl ne space =
      let free : (not (has_key key m.entries) && is_full m) ≡ false = ground arith in
      rw (free, set) (get-store_value_ne now later m key other value ttl ne)
