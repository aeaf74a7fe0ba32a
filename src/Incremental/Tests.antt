-- ===== src/Incremental/Tests.antt =====
-- The theorem on incremental updates at a concrete input.
use webmail_engine.Base.{ℕ, ◌+◌, ◌≡◌, true, List, [], ◌∷◌, some, if◌then◌else◌}
use webmail_engine.Incremental.{
  count_in, count_of, fetch_incremental_updates, is_known, fetch_incremental_updates-count_of,
}

abbrev cached : List ℕ
cached = 31 ∷ 29 ∷ 7 ∷ []

abbrev changed : List ℕ
changed = 29 ∷ 40 ∷ 41 ∷ []

fetch_incremental_updates-count_of_example :
    count_in 40 (fetch_incremental_updates cached (some changed) true)
    ≡ some (count_of 40 cached + (if is_known cached 40 then 0 else count_of 40 changed))
fetch_incremental_updates-count_of_example =
    fetch_incremental_updates-count_of 40 cached changed true
