-- ===== src/CacheKey/Tests.antt =====
-- The theorems on cache keys at concrete inputs.
use webmail_engine.Base.{String, ◌≡◌, ◌≢◌, refl, none, some, if◌then◌else◌}
use webmail_engine.CacheKey.Split.{has_colon}
use webmail_engine.CacheKey.{built, message_key, content_hash_key, parse_message_key}
use webmail_engine.CacheKey.Parsing.{parse_message_key-message_key, message_key_inj}
use webmail_engine.CacheKey.Apart.{message_key-content_hash_key}

abbrev ann : String
ann = "acc_1"

abbrev inbox : String
inbox = "INBOX"

abbrev seventeen : String
seventeen = "17"

inbox_17 : message_key ann inbox seventeen ≡ built "msg:acc_1:INBOX:17"
unfolding message_key
inbox_17 = refl

odd_17 : message_key "acc_1" "a:b" "17" ≡ built "msg:acc_1:a:b:17"
unfolding message_key
odd_17 = refl

parse_message_key-message_key_example :
    parse_message_key "msg:acc_1:a:b:17"
    ≡ (if has_colon "a:b" then none else some ("acc_1", "a:b", "17"))
parse_message_key-message_key_example =
    parse_message_key-message_key "acc_1" "a:b" "17" "msg:acc_1:a:b:17" odd_17 refl

message_key_inj_example : (ann ≡ ann) × (inbox ≡ inbox) × (seventeen ≡ seventeen)
message_key_inj_example =
    message_key_inj ann inbox seventeen ann inbox seventeen "msg:acc_1:INBOX:17" inbox_17 inbox_17
      refl refl

message_key-content_hash_key_example : content_hash_key "17" ≢ built "msg:acc_1:INBOX:17"
message_key-content_hash_key_example =
    message_key-content_hash_key "acc_1" "INBOX" "17" "17" "msg:acc_1:INBOX:17" inbox_17
