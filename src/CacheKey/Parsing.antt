-- ===== src/CacheKey/Parsing.antt =====
-- internal/cachekey/cache_key.go: message keys are parsed back, and tell messages apart.
use Prim.Native.Char.{code}
use Prim.Native.String.{◌++◌ as text_append}
use text.Mathlib.TextLemmas.{append_cancel_left, append_cancel_right}
use webmail_engine.Base.{
  ℕ, ◌+◌, ◌-◌, ◌*◌, ◌≡◌, refl, ◌∙◌, sym, ap, false, List, [], ◌∷◌, ◌++◌, Option, none, some, String,
  arith, str_eq, Bool-cases, Option-cases, inl, inr, if_true, if_false, if◌then◌else◌,
}
use webmail_engine.CacheKey.Split.{
  is_colon, split, has_colon, with_colon, split-append, split_plain, split_colon,
}
use webmail_engine.CacheKey.{
  KeyError, Built, built, is_digit, digits_value, fits_32, parse_uint, validate_account_id,
  validate_folder, validate_number, validate_uid, unless_error, build, message_key, message_parts,
  parse_message_key, set_account_id, set_folder, set_uid,
}

digits_value-no_colon : (s : String) (n m : ℕ) → digits_value n s ≡ some m → has_colon s ≡ false
unfolding digits_value
digits_value-no_colon String.[] n m e = refl
digits_value-no_colon (String.◌∷◌ c s) n m e =
    let rest = digits_value (n * 10 + (code c - 48)) s in
    elim (Bool-cases (is_digit c)) [
      | inl digit ↦
          (let here : is_colon c ≡ false = ground (arith) in
            rw here (
              digits_value-no_colon s (n * 10 + (code c - 48)) m
                (sym (if_true (is_digit c) rest none digit) ∙ e)))
      | inr other ↦
          (let clash : ◌≡◌ {A = Option ℕ} none (some m) =
              sym (if_false (is_digit c) rest none other) ∙ e in
            absurd (cc))
    ]

pub validate_uid-no_colon : (uid : String) → validate_uid uid ≡ none → has_colon uid ≡ false
unfolding validate_uid parse_uint
validate_uid-no_colon uid e = elim (Bool-cases (str_eq uid "")) [
  | inl empty ↦
      (let clash : some KeyError.empty_uid ≡ none = sym (if_true (str_eq uid "") _ _ empty) ∙ e in
        absurd (cc))
  | inr unempty ↦
      (let number : validate_number (fits_32 (digits_value 0 uid)) ≡ none =
          ap validate_number
            (sym (if_false (str_eq uid "") none (fits_32 (digits_value 0 uid)) unempty))
          ∙ sym (if_false (str_eq uid "") _ _ unempty)
          ∙ e in
        elim (Option-cases (digits_value 0 uid)) [
          | inl missing ↦
              (let clash : some KeyError.invalid_uid ≡ none =
                  sym (ap (λ (o : Option ℕ). validate_number (fits_32 o)) missing) ∙ number in
                absurd (cc))
          | inr (m, value) ↦ digits_value-no_colon uid 0 m value
        ])
]

unless_error-built :
    (e : Option KeyError) (rest : Built) (key : String)
    → unless_error e rest ≡ built key
    → (e ≡ none) × (rest ≡ built key)
unless_error-built none rest key h = (refl, h)
unless_error-built (some e) rest key h = absurd (cc)

pub record IsMessageKey (id folder uid key : String) : Type 0 where
  pub format : with_colon "msg" (with_colon id (with_colon folder uid)) ≡ key
  pub valid_id : validate_account_id id ≡ none
  pub uid_plain : has_colon uid ≡ false

pub message_key-IsMessageKey :
    (id folder uid key : String)
    → message_key id folder uid ≡ built key
    → IsMessageKey id folder uid key
unfolding message_key build set_account_id set_folder set_uid
message_key-IsMessageKey id folder uid key h =
    let (valid_id, h1) = unless_error-built (validate_account_id id) _ key h in
    let (valid_folder, h2) = unless_error-built (validate_folder folder) _ key h1 in
    let (valid_uid, h3) = unless_error-built (validate_uid uid) _ key h2 in
    record { format = cc; valid_id = valid_id; uid_plain = validate_uid-no_colon uid valid_uid }

-- The parts of a message key.
split-message_key :
    (id folder uid : String)
    → has_colon id ≡ false
    → has_colon uid ≡ false
    → split (with_colon "msg" (with_colon id (with_colon folder uid)))
      ≡ "msg" ∷ id ∷ split folder ++ uid ∷ []
split-message_key id folder uid plain_id plain_uid =
    split-append "msg" (with_colon id (with_colon folder uid))
    ∙ rw
        (
          split_plain "msg" refl,
          split-append id (with_colon folder uid),
          split_plain id plain_id,
          split-append folder uid,
          split_plain uid plain_uid,
        )
        refl

parts_long :
    (id w v uid : String) (ws : List String)
    → message_parts ("msg" ∷ id ∷ w ∷ v ∷ ws ++ uid ∷ []) ≡ none
parts_long id w v uid [] = refl
parts_long id w v uid (x ∷ ws) = refl

-- A key that `MessageKey` builds of an account ID without a colon is parsed back to the account ID, the
-- folder and the UID, except where the name of the folder has a colon: then it is refused.
pub parse_message_key-message_key :
    (id folder uid key : String)
    → message_key id folder uid ≡ built key
    → has_colon id ≡ false
    → parse_message_key key ≡ (if has_colon folder then none else some (id, folder, uid))
unfolding parse_message_key
parse_message_key-message_key id folder uid key h plain =
    let is_key = message_key-IsMessageKey id folder uid key h in
    ap (λ (k : String). message_parts (split k)) (sym is_key.format)
    ∙ ap message_parts (split-message_key id folder uid plain is_key.uid_plain)
    ∙ (elim (Bool-cases (has_colon folder)) [
      | inl colon ↦
          (let (w, v, ws, parts) = split_colon folder colon in
            rw (parts) (parts_long id w v uid ws)
            ∙ sym (if_true (has_colon folder) none (some (id, folder, uid)) colon))
      | inr none_there ↦
          rw (split_plain folder none_there)
            (sym (if_false (has_colon folder) none (some (id, folder, uid)) none_there))
    ])

abbrev second : List String → String
second (a ∷ b ∷ rest) = b
second _ = ""

abbrev last : List String → String
last [] = ""
last (w ∷ []) = w
last (w ∷ v ∷ ws) = last (v ∷ ws)

last-append : (ws : List String) (u : String) → last (ws ++ u ∷ []) ≡ u
last-append [] u = refl
last-append (w ∷ []) u = refl
last-append (w ∷ v ∷ ws) u = last-append (v ∷ ws) u

pub with_colon_cancel : (a b c : String) → with_colon a b ≡ with_colon a c → b ≡ c
with_colon_cancel a b c e =
    append_cancel_left ":" b c (append_cancel_left a (text_append ":" b) (text_append ":" c) e)

-- Keys of messages of accounts without a colon in their IDs are equal only where the account, the folder
-- and the UID are, whatever the names of the folders.
pub message_key_inj :
    (id folder uid id' folder' uid' key : String)
    → message_key id folder uid ≡ built key
    → message_key id' folder' uid' ≡ built key
    → has_colon id ≡ false
    → has_colon id' ≡ false
    → (id ≡ id') × (folder ≡ folder') × (uid ≡ uid')
message_key_inj id folder uid id' folder' uid' key h h' plain plain' =
    let k = message_key-IsMessageKey id folder uid key h in
    let k' = message_key-IsMessageKey id' folder' uid' key h' in
    let same = k.format ∙ sym k'.format in
    let parts =
      sym (split-message_key id folder uid plain k.uid_plain)
      ∙ ap split same
      ∙ split-message_key id' folder' uid' plain' k'.uid_plain in
    let same_id : id ≡ id' = ap second parts in
    let same_uid : uid ≡ uid' =
      sym (last-append ("msg" ∷ id ∷ split folder) uid)
      ∙ ap last parts
      ∙ last-append ("msg" ∷ id' ∷ split folder') uid' in
    let tail : with_colon folder uid ≡ with_colon folder' uid' =
      with_colon_cancel id (with_colon folder uid) (with_colon folder' uid') (
        with_colon_cancel "msg" (with_colon id (with_colon folder uid))
          (with_colon id (with_colon folder' uid'))
          (same
            ∙ ap (λ (i : String). with_colon "msg" (with_colon i (with_colon folder' uid')))
                (sym same_id))) in
    let tail' : with_colon folder uid ≡ with_colon folder' uid =
      tail ∙ ap (with_colon folder') (sym same_uid) in
    (same_id, append_cancel_right folder folder' (text_append ":" uid) tail', same_uid)
