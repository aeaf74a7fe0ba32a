-- ===== src/CacheKey/Split.antt =====
-- `strings.Split` of the standard library at a colon, and what it makes of texts put together.
use Prim.Native.Char.{Char, code}
use Prim.Native.String.{◌++◌ as text_append}
use text.Mathlib.TextLemmas.{cons-append, nil-append}
use webmail_engine.Base.{
  ◌≡◌, refl, ◌∙◌, sym, ap, Bool, true, false, ◌||◌, List, [], ◌∷◌, ◌++◌, String, ◌==◌, Bool-cases,
  inl, inr, if_true, if_false, if◌then◌else◌,
}

abbrev pub is_colon : Char → Bool
is_colon c = code c == 58

abbrev pub cons_first : Char → List String → List String
cons_first c [] = String.◌∷◌ c String.[] ∷ []
cons_first c (w ∷ ws) = String.◌∷◌ c w ∷ ws

unfoldable pub split : String → List String
split String.[] = String.[] ∷ []
split (String.◌∷◌ c s) =
    let rest = split s in if is_colon c then String.[] ∷ rest else cons_first c rest

abbrev pub has_colon : String → Bool
has_colon String.[] = false
has_colon (String.◌∷◌ c s) = is_colon c || has_colon s

-- Two texts with a colon between them.
abbrev pub with_colon : String → String → String
with_colon a b = text_append a (text_append ":" b)

colon-append : (b : String) → text_append ":" b ≡ String.◌∷◌ ":" b
colon-append b = cons-append ":" String.[] b ∙ ap (String.◌∷◌ ":") (nil-append b)

pub split_nonempty : (s : String) → (w : String) × (ws : List String) × (split s ≡ w ∷ ws)
unfolding split
split_nonempty String.[] = (String.[], [], refl)
split_nonempty (String.◌∷◌ c s) = elim (Bool-cases (is_colon c)) [
  | inl e ↦ (String.[], split s, if_true (is_colon c) _ _ e)
  | inr e ↦
      (let (w, ws, rest) = split_nonempty s in
        (String.◌∷◌ c w, ws, if_false (is_colon c) _ _ e ∙ ap (cons_first c) rest))
]

split-append_cons :
    (c : Char) (s b : String)
    → split (with_colon s b) ≡ split s ++ split b
    → split (String.◌∷◌ c (with_colon s b)) ≡ split (String.◌∷◌ c s) ++ split b
unfolding split
split-append_cons c s b rest = elim (Bool-cases (is_colon c)) [
  | inl e ↦
      if_true (is_colon c) _ _ e
      ∙ ap (λ (ws : List String). String.[] ∷ ws) rest
      ∙ ap (λ (ws : List String). ws ++ split b) (sym (if_true (is_colon c) _ _ e))
  | inr e ↦
      (let (w, ws, first) = split_nonempty s in
        let moved : cons_first c (split s ++ split b) ≡ cons_first c (split s) ++ split b =
          rw first refl in
        if_false (is_colon c) _ _ e
        ∙ ap (cons_first c) rest
        ∙ moved
        ∙ ap (λ (ws : List String). ws ++ split b) (sym (if_false (is_colon c) _ _ e)))
]

-- Split at a colon in the middle.
pub split-append : (a b : String) → split (with_colon a b) ≡ split a ++ split b
unfolding split
split-append String.[] b = ap split (nil-append (text_append ":" b) ∙ colon-append b)
split-append (String.◌∷◌ c s) b =
    ap split (cons-append c s (text_append ":" b)) ∙ split-append_cons c s b (split-append s b)

or_false : (a b : Bool) → (a || b) ≡ false → (a ≡ false) × (b ≡ false)
or_false true b e = absurd (cc)
or_false false b e = (refl, e)

or_right : (a b : Bool) → a ≡ false → (a || b) ≡ true → b ≡ true
or_right true b f e = absurd (cc)
or_right false b f e = e

-- A text without a colon is one part.
pub split_plain : (s : String) → has_colon s ≡ false → split s ≡ s ∷ []
unfolding split
split_plain String.[] h = refl
split_plain (String.◌∷◌ c s) h =
    let (here, later) = or_false (is_colon c) (has_colon s) h in
    if_false (is_colon c) _ _ here ∙ ap (cons_first c) (split_plain s later)

-- A text with a colon is at least two.
pub split_colon :
    (s : String) → has_colon s ≡ true → (w v : String) × (ws : List String) × (split s ≡ w ∷ v ∷ ws)
unfolding split
split_colon String.[] h = absurd (cc)
split_colon (String.◌∷◌ c s) h = elim (Bool-cases (is_colon c)) [
  | inl e ↦
      (let (v, vs, rest) = split_nonempty s in
        (
          String.[],
          v,
          vs,
          if_true (is_colon c) _ _ e ∙ ap (λ (ws : List String). String.[] ∷ ws) rest,
        ))
  | inr e ↦
      (let later = or_right (is_colon c) (has_colon s) e h in
        let (w, v, ws, rest) = split_colon s later in
        (String.◌∷◌ c w, v, ws, if_false (is_colon c) _ _ e ∙ ap (cons_first c) rest))
]
