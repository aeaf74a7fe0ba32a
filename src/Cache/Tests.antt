-- ===== src/Cache/Tests.antt =====
-- The theorems on the memory cache at concrete inputs.
use webmail_engine.Base.{ℕ, ◌≡◌, refl, List, [], ◌∷◌, none, some, arith}
use webmail_engine.Base.Int.{pos, ◌+ℤ◌}
use webmail_engine.Base.Dict.{lookup, insert, remove}
use webmail_engine.Cache.{
  MemoryClient, new_memory_client, get, set, first_expired, is_past, store_value, make_room,
  evict_oldest, delete, expire,
}
use webmail_engine.Cache.Invariant.{Inv}
use webmail_engine.Cache.History.{Call, sets, deletes, expires_in, run, run_cache-Inv, step}
use webmail_engine.Cache.Expiry.{get-set}
use webmail_engine.Cache.Scanning.{scan_from, scan_from_start}

-- Two keys, one of which expires at 10, in a cache for two.
abbrev two_keys : MemoryClient ℕ
two_keys = record {
  entries = ("a", 1) ∷ ("b", 2) ∷ [];
  expires = ("b", pos 10) ∷ [];
  max_size = pos 2;
}

abbrev some_calls : List (Call ℕ)
some_calls =
    sets (pos 0) [] [] "a" 1 (pos 0)
    ∷ expires_in (pos 1) "a" (pos 5)
    ∷ sets (pos 2) ("a" ∷ []) ("a" ∷ []) "b" 2 (pos 7)
    ∷ deletes "b"
    ∷ []

run_cache-Inv_example : Inv (run (new_memory_client (pos 1)) some_calls)
unfolding new_memory_client step set store_value make_room insert lookup expire remove evict_oldest
    delete first_expired is_past
run_cache-Inv_example =
    run_cache-Inv (pos 1) some_calls
      ((tt, (refl, tt)), (tt, (((refl, tt), (refl, (refl, tt))), (tt, tt))))

get-set_example : get (pos 9) (set (pos 3) [] [] two_keys "c" 7 (pos 5)) "c" ≡ none
unfolding ◌+ℤ◌
get-set_example = get-set (pos 3) (pos 9) [] [] two_keys "c" 7 (pos 5)

scan_from_start_example : scan_from 2 ("a" ∷ "b" ∷ "c" ∷ []) 0 2 ≡ some ("a" ∷ "b" ∷ "c" ∷ [])
scan_from_start_example =
    scan_from_start 2 ("a" ∷ "b" ∷ "c" ∷ []) 2 (omega arith) (omega arith) (omega arith)
