-- ===== src/ListCache/Tests.antt =====
-- The theorems on the message list cache at concrete inputs.
use webmail_engine.Base.{
  ℕ, ◌≡◌, refl, true, not, ◌&&◌, List, [], ◌∷◌, none, some, String, arith, if◌then◌else◌,
}
use webmail_engine.Base.Int.{pos, ◌-ℤ◌, ltb_ℤ}
use webmail_engine.Cache.{MemoryClient}
use webmail_engine.ListCache.Client.{memory_ops, memory-CacheLaws}
use webmail_engine.ListCache.{
  MessageList, MessageListCache, Json, ttl_message_list, get, set, count_hit, count_miss,
  invalidate_folder,
}
use webmail_engine.ListCache.Reading.{entry, is_served, get-set_list}
use webmail_engine.ListCache.Invalidation.{held, folder_prefix, invalidate_folder-held}
use text.Mathlib.Text.{starts_with}

abbrev order : MemoryClient String → List String
order m = []

abbrev client : MemoryClient String
client = record {
  entries = ("msglist:acc_1:INBOX:c0:50:date:desc:uv1", "{}") ∷ ("uids:acc_1:INBOX:1", "[]") ∷ [];
  expires = [];
  max_size = pos 10;
}

abbrev lists : MessageListCache (MemoryClient String)
lists = record {
  cache = some (record { client = some client });
  stats = record { hits = pos 0; misses = pos 0; sets = pos 0 };
}

abbrev second_page : MessageList ℕ
second_page = record { total_count = pos 80; current_page = pos 2; rest = 7 }

abbrev json : Json ℕ
json = record {
  marshal = λ x. some "{}";
  unmarshal = λ s. some (entry (pos 4) second_page 12);
  valid = λ s. true;
}

get-set_list_example :
    let s' = (set (memory_ops order) json (pos 4) lists "msglist:k" (some second_page) 12).0 in
    get (memory_ops order) json (pos 9) s' "msglist:k" 13 (pos 80) ≡ (
      if not (ltb_ℤ ttl_message_list (pos 9 -ℤ pos 4)) && is_served second_page 12 13 (pos 80)
      then (count_hit s', some second_page)
      else (count_miss s', none))
get-set_list_example =
    get-set_list (memory_ops order) (memory-CacheLaws order) json (pos 4) (pos 9) lists client
      "msglist:k" second_page 12 13 (pos 80) "}" refl
      (record { encodes = refl; decodes = refl; is_json = refl }) refl

invalidate_folder-held_example :
    let (s', ok) = invalidate_folder (memory_ops order) (pos 8) lists "acc_1" "INBOX" in
    (ok ≡ true)
    × (held (memory_ops order) (pos 9) s' "uids:acc_1:INBOX:1" ≡ (
        if starts_with "uids:acc_1:INBOX:1" (folder_prefix "acc_1" "INBOX")
        then some none
        else held (memory_ops order) (pos 9) lists "uids:acc_1:INBOX:1"))
invalidate_folder-held_example =
    invalidate_folder-held order (pos 8) (pos 9) lists client "acc_1" "INBOX" "uids:acc_1:INBOX:1"
      refl (omega arith)
