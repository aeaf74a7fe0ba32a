-- ===== src/Cache/Eviction.antt =====
-- internal/cache/memory_cache.go: what a full cache gives up for a new key.
use webmail_engine.Base.{
  ◌≡◌, ◌≢◌, refl, ◌∙◌, ap, true, false, inl, inr, List, ◌∷◌, none, String, arith, eq_iff, str_eq,
  Bool-cases, if◌then◌else◌,
}
use webmail_engine.Base.Int.{ℤ}
use webmail_engine.Base.Dict.{has_key, lookup-remove}
use webmail_engine.Cache.{
  MemoryClient, get, delete, first_expired, evict_oldest, make_room, set, is_full, store_value,
}
use webmail_engine.Cache.Expiry.{get-store_value_ne}

module _ {V : Type 0} where
  pub get-delete :
      (later : ℤ) (m : MemoryClient V) (k other : String)
      → get later (delete m k) other ≡ (if str_eq k other then none else get later m other)
  unfolding get delete
  get-delete later m k other = elim (Bool-cases (str_eq k other)) [
    | inl same ↦ rw (lookup-remove k other m.expires, lookup-remove k other m.entries, same) refl
    | inr differ ↦
        rw (lookup-remove k other m.expires, lookup-remove k other m.entries, differ) refl
  ]

  set_full :
      (now : ℤ) (expiring visited : List String) (m : MemoryClient V) (key victim : String)
      (value : V) (ttl : ℤ)
      → has_key key m.entries ≡ false
      → is_full m ≡ true
      → evict_oldest now expiring visited m ≡ delete m victim
      → set now expiring visited m key value ttl ≡ store_value now (delete m victim) key value ttl
  unfolding set
  set_full now expiring visited m key victim value ttl new full same =
      ap (λ (n : MemoryClient V). store_value now n key value ttl)
        (unfold make_room in rw (new, full) same)

  -- A full cache in which the loop over the expiries meets nothing expired gives up, for a new key,
  -- the other key that the loop over the values visits first, whichever that is.
  pub set_evicts_first :
      (now later : ℤ) (expiring visited : List String) (m : MemoryClient V) (key k : String)
      (value : V) (ttl : ℤ)
      → has_key key m.entries ≡ false
      → is_full m ≡ true
      → first_expired now m expiring ≡ none
      → k ≢ key
      → get later (set now expiring (k ∷ visited) m key value ttl) k ≡ none
  set_evicts_first now later expiring visited m key k value ttl new full none_past n =
      let same : evict_oldest now expiring (k ∷ visited) m ≡ delete m k =
        unfold evict_oldest in rw (none_past, evict_oldest) refl in
      rw (set_full now expiring (k ∷ visited) m key k value ttl new full same) (
        get-store_value_ne now later (delete m k) key k value ttl n
        ∙ ground (arith, get-delete later m k k, eq_iff k k))
