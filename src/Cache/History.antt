-- ===== src/Cache/History.antt =====
-- Every history of calls of the memory cache.
use webmail_engine.Base.{List, [], ◌∷◌, String}
use webmail_engine.Base.Int.{ℤ}
use webmail_engine.Cache.{MemoryClient, new_memory_client, set, delete, expire}
use webmail_engine.Cache.Invariant.{Inv, AllKeys, Visits, new-Inv, set-Inv, delete-Inv, expire-Inv}

pub data Call (V : Type 0) : Type 0 where
  sets : (now : ℤ) (expiring visited : List String) (key : String) (value : V) (ttl : ℤ) → Call V
  deletes : String → Call V
  expires_in : (now : ℤ) (key : String) (ttl : ℤ) → Call V

module _ {V : Type 0} where
  unfoldable pub step : MemoryClient V → Call V → MemoryClient V
  step m (sets now expiring visited key value ttl) = set now expiring visited m key value ttl
  step m (deletes key) = delete m key
  step m (expires_in now key ttl) = expire now m key ttl

  pub run : MemoryClient V → List (Call V) → MemoryClient V
  run m [] = m
  run m (c ∷ cs) = run (step m c) cs

  -- In each call the runtime visits keys that the maps hold, and every key of the values once.
  abbrev pub AllVisited : MemoryClient V → List (Call V) → Type 0
  AllVisited m [] = Unit {0}
  AllVisited m (sets now expiring visited key value ttl ∷ cs) =
      (AllKeys m.expires expiring × Visits m.entries visited)
      × AllVisited (step m (sets now expiring visited key value ttl)) cs
  AllVisited m (c ∷ cs) = Unit {0} × AllVisited (step m c) cs

  step-Inv :
      (m : MemoryClient V) (c : Call V) (cs : List (Call V))
      → AllVisited m (c ∷ cs)
      → Inv m
      → Inv (step m c) × AllVisited (step m c) cs
  unfolding step
  step-Inv m (sets now expiring visited key value ttl) cs a h =
      (set-Inv now expiring visited m key value ttl h a.0.0 a.0.1, a.1)
  step-Inv m (deletes key) cs a h = (delete-Inv m key h, a.1)
  step-Inv m (expires_in now key ttl) cs a h = (expire-Inv now m key ttl h, a.1)

  run-Inv : (m : MemoryClient V) (cs : List (Call V)) → AllVisited m cs → Inv m → Inv (run m cs)
  unfolding run
  run-Inv m [] a h = h
  run-Inv m (c ∷ cs) a h = let (h', a') = step-Inv m c cs a h in run-Inv (step m c) cs a' h'

  -- After any history of calls from a new cache, in whatever order the runtime visits the keys of
  -- the maps, a key with an expiry has a value, and a positive size limit is never exceeded.
  pub run_cache-Inv :
      (size : ℤ) (cs : List (Call V))
      → AllVisited (new_memory_client size) cs
      → Inv (run (new_memory_client size) cs)
  run_cache-Inv size cs a = run-Inv (new_memory_client size) cs a (new-Inv size)
