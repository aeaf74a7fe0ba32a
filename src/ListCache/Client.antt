-- ===== src/ListCache/Client.antt =====
-- internal/cache/cache.go: the client and what it promises, with the in-memory client as an instance, and
-- `Cache` over it.
use webmail_engine.Base.{
  ◌≡◌, ap, Bool, true, ◌&&◌, List, [], Option, none, some, String, if◌then◌else◌,
}
use webmail_engine.Base.Int.{ℤ, pos, ◌+ℤ◌, ltb_ℤ}
use webmail_engine.Cache.{
  MemoryClient, get as memory_get, set as memory_set, delete as memory_delete,
}
use webmail_engine.Cache.Keys.{keys as memory_keys}
use webmail_engine.Cache.Expiry.{get-set}

-- The operations at a time; `none` and `false` stand for an error.
pub record CacheClient (C : Type 0) : Type 0 where
  pub get : ℤ → C → String → Option (Option String)
  pub set : ℤ → C → String → String → ℤ → C × Bool
  pub delete : C → String → C × Bool
  pub keys : ℤ → C → String → Option (List String)

-- A value that was set is read until its time is over.
pub record CacheLaws {C : Type 0} (ops : CacheClient C) : Type 0 where
  pub reads :
      (now later : ℤ) (m : C) (key bytes : String) (ttl : ℤ)
      → (ops.set now m key bytes ttl).1 ≡ true
      → ops.get later (ops.set now m key bytes ttl).0 key
        ≡ some (if ltb_ℤ (pos 0) ttl && ltb_ℤ (now +ℤ ttl) later then none else some bytes)

-- The in-memory client, whose calls return no error, with an order in which the runtime visits its maps.
abbrev pub memory_ops : (MemoryClient String → List String) → CacheClient (MemoryClient String)
memory_ops order = record {
  get = λ now m key. some (memory_get now m key);
  set = λ now m key bytes ttl. (memory_set now (order m) (order m) m key bytes ttl, true);
  delete = λ m key. (memory_delete m key, true);
  keys = λ now m pattern. some (memory_keys now m pattern);
}

pub memory-CacheLaws : (order : MemoryClient String → List String) → CacheLaws (memory_ops order)
memory-CacheLaws order = record {
  reads = λ now later m key bytes ttl ok.
      ap some (get-set now later (order m) (order m) m key bytes ttl);
}

pub record Cache (C : Type 0) : Type 0 where
  pub client : Option C

module _ {C : Type 0} (ops : CacheClient C) where
  unfoldable pub cache_get : ℤ → Cache C → String → Option (Option String)
  cache_get now c key = elim c.client [ none ↦ none | some m ↦ ops.get now m key ]

  unfoldable pub cache_set : ℤ → Cache C → String → String → ℤ → Cache C × Bool
  cache_set now c key bytes ttl = elim c.client [
    | none ↦ (c, true)
    | some m ↦
        (record { client = some (ops.set now m key bytes ttl).0 }, (ops.set now m key bytes ttl).1)
  ]

  unfoldable pub cache_delete : Cache C → String → Cache C × Bool
  cache_delete c key = elim c.client [
    | none ↦ (c, true)
    | some m ↦ (record { client = some (ops.delete m key).0 }, (ops.delete m key).1)
  ]

  unfoldable pub cache_keys : ℤ → Cache C → String → Option (List String)
  cache_keys now c pattern = elim c.client [ none ↦ some [] | some m ↦ ops.keys now m pattern ]
