-- ===== src/ListCache/Listing.antt =====
-- internal/cache/memory_cache.go: what is left of the in-memory client when the keys that match a pattern have
-- been deleted one by one.
use webmail_engine.Base.{
  ◌≡◌, refl, ◌∙◌, sym, ap, subst, Bool, true, false, ◌&&◌, ◌||◌, List, [], ◌∷◌, map, Option, none,
  some, String, arith, str_eq, eq_iff, keep_if, Bool-cases, inl, inr, if_true, if_false, if_split,
  if◌then◌else◌,
}
use webmail_engine.Base.Int.{ℤ, ◌≤ℤ◌}
use webmail_engine.Base.Dict.{Dict, lookup, has_key, lookup_missing}
use webmail_engine.Cache.{MemoryClient, is_past, exists, get as memory_get, delete as memory_delete}
use webmail_engine.Cache.Keys.{matches, text_leb, insert_sorted, sort, keys as memory_keys}
use webmail_engine.Cache.Eviction.{get-delete}

abbrev holds : String → List String → Bool
holds key [] = false
holds key (k ∷ ks) = str_eq k key || holds key ks

or_swap : (a b c : Bool) → (a || (b || c)) ≡ (b || (a || c))
or_swap true true c = refl
or_swap true false c = refl
or_swap false b c = refl

holds-insert_sorted :
    (key x : String) (ys : List String)
    → holds key (insert_sorted x ys) ≡ (str_eq x key || holds key ys)
unfolding insert_sorted
holds-insert_sorted key x [] = refl
holds-insert_sorted key x (y ∷ ys) =
    if_split (λ (zs : List String). holds key zs ≡ (str_eq x key || holds key (y ∷ ys)))
      (text_leb x y) (λ _. refl)
      (λ _.
        ap (λ (b : Bool). str_eq y key || b) (holds-insert_sorted key x ys)
        ∙ or_swap (str_eq y key) (str_eq x key) (holds key ys))

holds-sort : (key : String) (xs : List String) → holds key (sort xs) ≡ holds key xs
unfolding sort
holds-sort key [] = refl
holds-sort key (x ∷ xs) =
    holds-insert_sorted key x (sort xs) ∙ ap (λ (b : Bool). str_eq x key || b) (holds-sort key xs)

holds-keep_if :
    (key : String) (p : String → Bool) (xs : List String)
    → holds key (keep_if p xs) ≡ (p key && holds key xs)
unfolding keep_if
holds-keep_if key p [] = ground (arith)
holds-keep_if key p (x ∷ xs) = elim (Bool-cases (str_eq x key)) [
  | inl same ↦
      (let here : x ≡ key = (eq_iff x key).0 same in
        if_split (λ (zs : List String). holds key zs ≡ (p key && (str_eq x key || holds key xs)))
          (p x)
          (λ kept.
            (let kept' : p key ≡ true = subst (λ (k : String). p k ≡ true) here kept in
              rw (kept', same) refl))
          (λ cut.
            (let cut' : p key ≡ false = subst (λ (k : String). p k ≡ false) here cut in
              holds-keep_if key p xs ∙ rw (cut') refl)))
  | inr other ↦
      if_split (λ (zs : List String). holds key zs ≡ (p key && (str_eq x key || holds key xs)))
        (p x) (λ _. rw (other) (holds-keep_if key p xs)) (λ _. rw (other) (holds-keep_if key p xs))
]

and_self : (b : Bool) → (b && b) ≡ false → b ≡ false
and_self true e = e
and_self false e = refl

is_past-le :
    (now later : ℤ) (e : Option ℤ) → now ≤ℤ later → is_past later e ≡ false → is_past now e ≡ false
unfolding is_past
is_past-le now later none le h = refl
is_past-le now later (some exp) le h = ground (arith)

two_tests :
    {A : Type 0} (a b : Bool) (x : Option A)
    → ◌≡◌ {A = Option A} (if a then none else if b then none else x) (if b || a then none else x)
two_tests true true x = refl
two_tests true false x = refl
two_tests false true x = refl
two_tests false false x = refl

three_tests :
    {A : Type 0} (a b c : Bool) (x : Option A)
    → ((b && c) ≡ false → x ≡ none)
    → ◌≡◌ {A = Option A} (if (a && b) && c then none else x) (if a then none else x)
three_tests true true true x h = refl
three_tests true true false x h = h refl
three_tests true false c x h = h refl
three_tests false b c x h = refl

module _ {V : Type 0} where
  holds-names :
      (key : String) (m : Dict V) → holds key (map (λ (e : String × V). e.0) m) ≡ has_key key m
  unfolding lookup
  holds-names key [] = refl
  holds-names key ((k, v) ∷ m) = elim (Bool-cases (str_eq k key)) [
    | inl same ↦ rw same refl
    | inr other ↦ rw other (holds-names key m)
  ]

  holds-keys :
      (now : ℤ) (m : MemoryClient V) (pattern key : String)
      → holds key (memory_keys now m pattern)
        ≡ ((matches pattern key && exists now m key) && has_key key m.entries)
  unfolding memory_keys
  holds-keys now m pattern key =
      let names = map (λ (e : String × V). e.0) m.entries in
      let kept = λ (k : String). matches pattern k && exists now m k in
      holds-sort key (keep_if kept names)
      ∙ holds-keep_if key kept names
      ∙ ap (λ (b : Bool). kept key && b) (holds-names key m.entries)

  -- What is not listed is not read any more.
  unlisted :
      (now later : ℤ) (m : MemoryClient V) (key : String)
      → now ≤ℤ later
      → (exists now m key && has_key key m.entries) ≡ false
      → memory_get later m key ≡ none
  unfolding memory_get exists is_past
  unlisted now later m key le gone = elim (Bool-cases (is_past later (lookup key m.expires))) [
    | inl past ↦ if_true (is_past later (lookup key m.expires)) none (lookup key m.entries) past
    | inr present ↦
        (let here = is_past-le now later (lookup key m.expires) le present in
          let none_held : (has_key key m.entries && has_key key m.entries) ≡ false =
            ap (λ (b : Bool). b && has_key key m.entries)
              (sym
                (if_false (is_past now (lookup key m.expires)) false (has_key key m.entries) here))
            ∙ gone in
          if_false (is_past later (lookup key m.expires)) none (lookup key m.entries) present
          ∙ lookup_missing key m.entries (and_self (has_key key m.entries) none_held))
  ]

  -- A client whose listed keys are deleted.
  unfoldable pub remaining : MemoryClient V → List String → MemoryClient V
  remaining m [] = m
  remaining m (k ∷ ks) = remaining (memory_delete m k) ks

  get-remaining :
      (later : ℤ) (ks : List String) (m : MemoryClient V) (key : String)
      → memory_get later (remaining m ks) key
        ≡ (if holds key ks then none else memory_get later m key)
  unfolding remaining
  get-remaining later [] m key = refl
  get-remaining later (k ∷ ks) m key =
      get-remaining later ks (memory_delete m k) key
      ∙ rw (get-delete later m k key)
          (two_tests (holds key ks) (str_eq k key) (memory_get later m key))

  pub get-remaining_keys :
      (now later : ℤ) (m : MemoryClient V) (pattern key : String)
      → now ≤ℤ later
      → memory_get later (remaining m (memory_keys now m pattern)) key
        ≡ (if matches pattern key then none else memory_get later m key)
  get-remaining_keys now later m pattern key le =
      get-remaining later (memory_keys now m pattern) m key
      ∙ rw (holds-keys now m pattern key) (
          three_tests (matches pattern key) (exists now m key) (has_key key m.entries)
            (memory_get later m key) (unlisted now later m key le))
