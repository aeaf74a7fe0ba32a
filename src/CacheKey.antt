-- ===== src/CacheKey.antt =====
-- internal/cachekey/cache_key.go: the keys of the cache. The formats of `fmt.Sprintf` are the texts put
-- together; `strconv.ParseUint` and `strings.Split` are those of the standard library.
pub mod Split
pub mod Parsing
pub mod Apart
mod Tests
use Prim.Native.Char.{Char, code}
use text.Mathlib.Text.{starts_with}
use webmail_engine.Base.{
  ℕ, ◌+◌, ◌-◌, ◌*◌, ◌^◌, Bool, true, false, ◌&&◌, List, [], ◌∷◌, Option, none, some, String, str_eq,
  ltb, leb, ◌==◌, if◌then◌else◌,
}
use webmail_engine.CacheKey.Split.{with_colon, split}

-- The errors by their kind, without the text.
pub data KeyError : Type 0 where
  empty_account_id invalid_account_id empty_folder empty_uid invalid_uid : KeyError
  empty_content_hash empty_thread_id : KeyError

pub data Built : Type 0 where
  built : String → Built
  refused : KeyError → Built

-- `strconv.ParseUint(s, 10, 32)`.
abbrev pub is_digit : Char → Bool
is_digit c = leb 48 (code c) && leb (code c) 57

unfoldable pub digits_value : ℕ → String → Option ℕ
digits_value n String.[] = some n
digits_value n (String.◌∷◌ c s) =
    let rest = digits_value (n * 10 + (code c - 48)) s in if is_digit c then rest else none

abbrev pub fits_32 : Option ℕ → Option ℕ
fits_32 none = none
fits_32 (some n) = if ltb n (2 ^ 32) then some n else none

unfoldable pub parse_uint : String → Option ℕ
unfolding digits_value
parse_uint s = if str_eq s "" then none else fits_32 (digits_value 0 s)

unfoldable pub validate_account_id : String → Option KeyError
validate_account_id id =
    if str_eq id ""
    then some empty_account_id
    else if starts_with id "acc_"
    then none
    else some invalid_account_id

unfoldable pub validate_folder : String → Option KeyError
validate_folder folder = if str_eq folder "" then some empty_folder else none

abbrev pub validate_number : Option ℕ → Option KeyError
validate_number none = some invalid_uid
validate_number (some n) = if n == 0 then some invalid_uid else none

unfoldable pub validate_uid : String → Option KeyError
unfolding parse_uint
validate_uid uid = if str_eq uid "" then some empty_uid else validate_number (parse_uint uid)

-- `if err := …; err != nil { return "", err }` before the rest.
abbrev pub unless_error : Option KeyError → Built → Built
unless_error none rest = rest
unless_error (some e) rest = refused e

pub record MessageKeyBuilder : Type 0 where
  pub account_id : String
  pub folder : String
  pub uid : String

abbrev pub new_message_key_builder : MessageKeyBuilder
new_message_key_builder = record { account_id = ""; folder = ""; uid = "" }

unfoldable pub set_account_id : MessageKeyBuilder → String → MessageKeyBuilder
set_account_id b id = record b { account_id = id }

unfoldable pub set_folder : MessageKeyBuilder → String → MessageKeyBuilder
set_folder b folder = record b { folder = folder }

unfoldable pub set_uid : MessageKeyBuilder → String → MessageKeyBuilder
set_uid b uid = record b { uid = uid }

unfoldable pub build : MessageKeyBuilder → Built
unfolding validate_account_id validate_folder validate_uid
build b = unless_error (validate_account_id b.account_id) (
    unless_error (validate_folder b.folder) (
      unless_error (validate_uid b.uid)
        (built (with_colon "msg" (with_colon b.account_id (with_colon b.folder b.uid))))))

-- `BuildMust`, where `none` is its panic, and `BuildOrDefault`.
abbrev pub key_or_panic : Built → Option String
key_or_panic (built key) = some key
key_or_panic (refused e) = none

abbrev pub key_or : Built → String → String
key_or (built key) default = key
key_or (refused e) default = default

unfoldable pub build_must : MessageKeyBuilder → Option String
unfolding build
build_must b = key_or_panic (build b)

unfoldable pub build_or_default : MessageKeyBuilder → String → String
unfolding build
build_or_default b default = key_or (build b) default

unfoldable pub message_key : String → String → String → Built
unfolding build set_account_id set_folder set_uid
message_key id folder uid =
    build (set_uid (set_folder (set_account_id new_message_key_builder id) folder) uid)

abbrev pub folder_or_inbox : String → String
folder_or_inbox folder = if str_eq folder "" then "INBOX" else folder

unfoldable pub message_key_safe : String → String → String → String
unfolding message_key
message_key_safe id folder uid = key_or (message_key id (folder_or_inbox folder) uid) ""

unfoldable pub content_hash_key : String → Built
content_hash_key hash =
    if str_eq hash "" then refused empty_content_hash else built (with_colon "msg:hash" hash)

unfoldable pub content_hash_key_safe : String → String
content_hash_key_safe hash = if str_eq hash "" then "" else with_colon "msg:hash" hash

unfoldable pub folder_key : String → String → Built
unfolding validate_account_id
folder_key id folder =
    unless_error (validate_account_id id)
      (built (with_colon "fld" (with_colon id (folder_or_inbox folder))))

unfoldable pub folder_list_key : String → Built
unfolding validate_account_id
folder_list_key id = unless_error (validate_account_id id) (built (with_colon "fld" id))

unfoldable pub account_key : String → Built
unfolding validate_account_id
account_key id = unless_error (validate_account_id id) (built (with_colon "acct" id))

unfoldable pub envelope_key : String → String → String → Built
unfolding validate_account_id
envelope_key id folder uid = unless_error (validate_account_id id) (
    if str_eq uid ""
    then refused empty_uid
    else built (with_colon "env" (with_colon id (with_colon (folder_or_inbox folder) uid))))

unfoldable pub thread_key : String → String → Built
unfolding validate_account_id
thread_key id thread_id = unless_error (validate_account_id id) (
    if str_eq thread_id ""
    then refused empty_thread_id
    else built (with_colon "thd" (with_colon id thread_id)))

unfoldable pub search_key : String → String
search_key query_hash = if str_eq query_hash "" then "" else with_colon "srch" query_hash

unfoldable pub token_bucket_key : String → Built
unfolding validate_account_id
token_bucket_key id = unless_error (validate_account_id id) (built (with_colon "tkn" id))

unfoldable pub attachment_key : String → String
attachment_key id = if str_eq id "" then "" else with_colon "att" id

-- Four parts of which the first is the prefix.
abbrev pub message_parts : List String → Option (String × String × String)
message_parts (prefix ∷ id ∷ folder ∷ uid ∷ []) =
    if str_eq prefix "msg" then some (id, folder, uid) else none
message_parts _ = none

unfoldable pub parse_message_key : String → Option (String × String × String)
unfolding split
parse_message_key key = message_parts (split key)
