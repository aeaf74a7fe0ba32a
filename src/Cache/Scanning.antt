-- ===== src/Cache/Scanning.antt =====
-- internal/cache/memory_cache.go: the calls of `Scan` that follow the cursor.
use native.Mathlib.Nat.{suc-mul}
use webmail_engine.Base.{
  ℕ, zero, suc, ◌+◌, ◌-◌, ◌*◌, ◌≤◌, ◌<◌, ◌≡◌, refl, ap, true, false, inl, inr, List, [], ◌∷◌, ◌++◌,
  Option, none, some, String, arith, length, take, drop, take_all, drop-drop, length-drop,
  take-append-drop, Bool-cases, ltb, ◌==◌,
}
use webmail_engine.Base.Int.{pos, two_63, wrap64, add64}
use webmail_engine.Store.Page.{slice}
use webmail_engine.Cache.Keys.{scan_page}

-- The calls with a cursor until the cursor is 0 again; `none` is a panic, or no fuel left.
unfoldable pub scan_from : ℕ → List String → ℕ → ℕ → Option (List String)
unfolding scan_page
scan_from zero keys cursor count = none
scan_from (suc k) keys cursor count = elim (scan_page keys cursor (pos count)) [
  | none ↦ none
  | some (shown, next) ↦ elim (next == 0) [
    | true ↦ some shown
    | false ↦ elim (scan_from k keys next count) [
      | none ↦ none
      | some later ↦ some (shown ++ later)
    ]
  ]
]

scan_page-part :
    (keys : List String) (c n : ℕ)
    → 0 < n
    → length keys < two_63
    → c + n < length keys
    → scan_page keys c (pos n) ≡ some (take (c + n - c) (drop c keys), c + n)
unfolding scan_page slice add64 wrap64
scan_page-part keys c n p b part = ground arith

scan_page-rest :
    (keys : List String) (c n : ℕ)
    → c < length keys
    → length keys + n < two_63
    → length keys ≤ c + n
    → scan_page keys c (pos n) ≡ some (take (length keys - c) (drop c keys), 0)
unfolding scan_page slice add64 wrap64
scan_page-rest keys c n h b rest = ground arith

scan_page-past :
    (keys : List String) (c n : ℕ)
    → length keys ≤ c
    → c < two_63
    → scan_page keys c (pos n) ≡ some ([], 0)
unfolding scan_page wrap64
scan_page-past keys c n past b = ground arith

scan_from_lem :
    (k : ℕ) (keys : List String) (c n : ℕ)
    → 0 < n
    → c < length keys
    → length keys + n < two_63
    → length keys ≤ c + k * n
    → scan_from k keys c n ≡ some (drop c keys)
unfolding scan_from
scan_from_lem zero keys c n p h b cover = absurd (omega arith)
scan_from_lem (suc k) keys c n p h b cover = elim (Bool-cases (ltb (c + n) (length keys))) [
  | inl part ↦
      (let inside : c + n < length keys = ground arith in
        let more : (c + n == 0) ≡ false = ground arith in
        let exact : c + n - c ≡ n = omega arith in
        rw (scan_page-part keys c n p (omega arith) inside, scan_from)
          (rw (more, scan_from_lem k keys (c + n) n p inside b (omega (arith, suc-mul k n)), exact)
            (ap some (rw (← drop-drop c n keys) (take-append-drop n (drop c keys))))))
  | inr last ↦
      rw (scan_page-rest keys c n h b (ground arith), scan_from)
        (ap some (take_all (length keys - c) (drop c keys) (omega (arith, length-drop c keys))))
]

-- The calls of `Scan` from the cursor 0 that follow the cursor until it is 0 again end, and show
-- every key once and in order, where the keys stay, the count is positive and does not overflow
-- with the number of keys, and more calls are allowed than cover the keys.
pub scan_from_start :
    (k : ℕ) (keys : List String) (n : ℕ)
    → 0 < n
    → length keys + n < two_63
    → length keys < k * n
    → scan_from k keys 0 n ≡ some keys
scan_from_start zero keys n p b cover = absurd (omega arith)
scan_from_start (suc k) [] n p b cover = unfold scan_from scan_page wrap64 in refl
scan_from_start (suc k) (key ∷ keys) n p b cover =
    scan_from_lem (suc k) (key ∷ keys) 0 n p (omega arith) b (omega arith)
