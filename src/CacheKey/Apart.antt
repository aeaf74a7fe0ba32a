-- ===== src/CacheKey/Apart.antt =====
-- internal/cachekey/cache_key.go: message keys and keys of contents share a prefix, and no key.
use Prim.Native.Char.{code}
use Prim.Native.String.{◌++◌ as text_append}
use text.Mathlib.Text.{starts_with}
use text.Mathlib.TextEquality.{starts_with_iff}
use text.Mathlib.TextLemmas.{append_assoc, cons-append, head-eq_of_cons-eq}
use webmail_engine.Base.{
  ◌≡◌, ◌≢◌, ◌∙◌, sym, ap, true, none, some, String, arith, str_eq, Bool-cases, inl, inr, if_true,
  if_false,
}
use webmail_engine.CacheKey.Split.{with_colon}
use webmail_engine.CacheKey.{
  KeyError, built, refused, validate_account_id, message_key, content_hash_key,
}
use webmail_engine.CacheKey.Parsing.{message_key-IsMessageKey, with_colon_cancel}

validate_account_id-prefix :
    (id : String) → validate_account_id id ≡ none → starts_with id "acc_" ≡ true
unfolding validate_account_id
validate_account_id-prefix id e = elim (Bool-cases (str_eq id "")) [
  | inl empty ↦
      (let clash : some KeyError.empty_account_id ≡ none =
          sym (if_true (str_eq id "") _ _ empty) ∙ e in
        absurd (cc))
  | inr unempty ↦ elim (Bool-cases (starts_with id "acc_")) [
    | inl begins ↦ begins
    | inr other ↦
        (let clash : some KeyError.invalid_account_id ≡ none =
            sym (if_false (starts_with id "acc_") _ _ other)
            ∙ sym (if_false (str_eq id "") _ _ unempty)
            ∙ e in
          absurd (cc))
  ]
]

first_differs : (x y : String) → text_append "acc_" x ≢ text_append "hash" y
first_differs x y e =
    let clash : Path String (String.◌∷◌ "a" (text_append "cc_" x))
        (String.◌∷◌ "h" (text_append "ash" y)) =
      sym (cons-append "a" "cc_" x) ∙ e ∙ cons-append "h" "ash" y in
    let codes : 97 ≡ 104 = ap code (head-eq_of_cons-eq clash) in absurd (omega (arith, codes))

hash_parts :
    (hash : String) → with_colon "msg:hash" hash ≡ with_colon "msg" (with_colon "hash" hash)
hash_parts hash =
    append_assoc "msg" ":hash" (text_append ":" hash)
    ∙ ap (text_append "msg") (append_assoc ":" "hash" (text_append ":" hash))

content_hash_key-built :
    (hash key : String) → content_hash_key hash ≡ built key → with_colon "msg:hash" hash ≡ key
unfolding content_hash_key
content_hash_key-built hash key e = elim (Bool-cases (str_eq hash "")) [
  | inl empty ↦
      (let clash : refused KeyError.empty_content_hash ≡ built key =
          sym (if_true (str_eq hash "") _ _ empty) ∙ e in
        absurd (cc))
  | inr unempty ↦
      (let same : built (with_colon "msg:hash" hash) ≡ built key =
          sym (if_false (str_eq hash "") _ _ unempty) ∙ e in
        cc)
]

-- A key of a message, which is the prefix of messages before an account ID, is never the key of a content
-- hash, although the prefix of those begins in the same way.
pub message_key-content_hash_key :
    (id folder uid hash key : String)
    → message_key id folder uid ≡ built key
    → content_hash_key hash ≢ built key
message_key-content_hash_key id folder uid hash key h e =
    let k = message_key-IsMessageKey id folder uid key h in
    let (r, begins) = (starts_with_iff id "acc_").0 (validate_account_id-prefix id k.valid_id) in
    let rest = with_colon folder uid in
    let same : with_colon id rest ≡ with_colon "hash" hash =
      with_colon_cancel "msg" (with_colon id rest) (with_colon "hash" hash)
        (k.format ∙ sym (content_hash_key-built hash key e) ∙ hash_parts hash) in
    first_differs (text_append r (text_append ":" rest)) (text_append ":" hash) (
      sym (append_assoc "acc_" r (text_append ":" rest))
      ∙ ap (λ (t : String). text_append t (text_append ":" rest)) begins
      ∙ same)
