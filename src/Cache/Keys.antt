-- ===== src/Cache/Keys.antt =====
-- internal/cache/memory_cache.go: `Keys` and `Scan`, with what they use of Go's standard library.
use Prim.Native.Nat.{Ordering}
use Prim.Native.String.{compare, len, slice as text_slice}
use text.Mathlib.Text.{starts_with}
use webmail_engine.Base.{
  ℕ, ◌-◌, Bool, true, false, ◌&&◌, List, [], ◌∷◌, map, Option, none, some, String, length, keep_if,
  str_eq, if◌then◌else◌,
}
use webmail_engine.Base.Int.{ℤ, pos, pos_part, wrap64, add64, ltb_ℤ, leb_ℤ}
use webmail_engine.Store.Page.{slice}
use webmail_engine.Cache.{MemoryClient, exists}

-- `strings.CutSuffix(pattern, "*")`
unfoldable pub cut_star : String → Option String
cut_star pattern =
    let cut = len pattern - 1 in
    if str_eq (text_slice pattern cut (len pattern)) "*"
    then some (text_slice pattern 0 cut)
    else none

unfoldable pub matches : String → String → Bool
unfolding cut_star
matches pattern key = elim (cut_star pattern) [
  | some prefix ↦ starts_with key prefix
  | none ↦ str_eq key pattern
]

abbrev pub text_leb : String → String → Bool
text_leb a b = elim (compare a b) [ Ordering.gt ↦ false | _ ↦ true ]

-- `sort.Strings`
unfoldable pub insert_sorted : String → List String → List String
insert_sorted x [] = x ∷ []
insert_sorted x (y ∷ ys) =
    let rest = insert_sorted x ys in if text_leb x y then x ∷ (y ∷ ys) else y ∷ rest

unfoldable pub sort : List String → List String
unfolding insert_sorted
sort [] = []
sort (x ∷ xs) = insert_sorted x (sort xs)

-- `keys[start:end]` and the next cursor, where `none` is a panic. A cursor is a `uint64`, and the
-- conversion to `int` wraps around.
unfoldable pub scan_page : List String → ℕ → ℤ → Option (List String × ℕ)
unfolding slice add64
scan_page keys cursor count =
    let start = wrap64 (pos cursor) in
    let sum = add64 start count in
    let end = if ltb_ℤ (pos (length keys)) sum then pos (length keys) else sum in
    if leb_ℤ (pos (length keys)) start then some ([], 0) else elim (slice keys start end) [
      | none ↦ none
      | some shown ↦ some (shown, (if ltb_ℤ end (pos (length keys)) then pos_part end else 0))
    ]

module _ {V : Type 0} where
  -- The order in which the runtime visits the map does not show in the sorted result.
  unfoldable pub keys : ℤ → MemoryClient V → String → List String
  unfolding exists matches sort keep_if
  keys now m pattern = sort (
      keep_if (λ key. matches pattern key && exists now m key)
        (map (λ (e : String × V). e.0) m.entries))

  unfoldable pub scan : ℤ → MemoryClient V → ℕ → String → ℤ → Option (List String × ℕ)
  unfolding keys scan_page
  scan now m cursor pattern count = scan_page (keys now m pattern) cursor count
