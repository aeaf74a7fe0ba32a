-- ===== src/Store/Page.antt =====
-- The pagination that internal/store/memory_store.go writes out in `List`, `ListAuditLogs` and
-- `GetSentMessages`: `offset` and `limit` are `int`s, and the sum wraps around.
use webmail_engine.Base.{
  ℕ, ◌-◌, ◌||◌, List, [], Option, none, some, length, take, drop, if◌then◌else◌,
}
use webmail_engine.Base.Int.{ℤ, pos, pos_part, add64, ltb_ℤ, leb_ℤ}

-- `xs[offset:end]`, which panics unless 0 ≤ offset ≤ end ≤ len(xs).
unfoldable pub slice {ℓ} : {A : Type ℓ} → List A → ℤ → ℤ → Option (List A)
slice xs from to =
    if ltb_ℤ from (pos 0) || ltb_ℤ to from || ltb_ℤ (pos (length xs)) to
    then none
    else some (take (pos_part to - pos_part from) (drop (pos_part from) xs))

abbrev pub page_end : ℕ → ℤ → ℤ → ℤ
page_end total offset limit =
    let end = add64 offset limit in
    if leb_ℤ limit (pos 0) || ltb_ℤ (pos total) end then pos total else end

-- A negative offset counts as 0; a limit that is not positive means no limit. `none` is a panic.
unfoldable pub page {ℓ} : {A : Type ℓ} → List A → ℤ → ℤ → Option (List A)
unfolding slice add64
page xs offset limit =
    let start = if ltb_ℤ offset (pos 0) then pos 0 else offset in
    if leb_ℤ (pos (length xs)) start
    then some []
    else slice xs start (page_end (length xs) start limit)
