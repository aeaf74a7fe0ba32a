-- ===== src/ListCache/Reading.antt =====
-- internal/messagecache/message_cache.go: what `Get` returns of a list that `Set` has stored.
use Prim.Native.Char.{Char}
use text.Mathlib.TextLemmas.{cons-ne-nil}
use webmail_engine.Base.{
  ℕ, ◌≡◌, refl, ◌∙◌, ap, Bool, true, false, not, ◌&&◌, ◌||◌, Option, none, some, String, arith,
  str_eq, eq_iff, ◌==◌, Bool-cases, inl, inr, if_true, if_false, if◌then◌else◌,
}
use webmail_engine.Base.Int.{ℤ, pos, ◌+ℤ◌, ◌-ℤ◌, +ℤ_parts, -ℤ_parts, ltb_ℤ, eqb_ℤ}
use webmail_engine.ListCache.Client.{CacheClient, CacheLaws, Cache, cache_get, cache_set}
use webmail_engine.ListCache.{
  MessageList, CachedMessageList, MessageListCache, Json, ttl_message_list, is_valid_json, hit,
  miss, modseq_unchanged, judge, examine, settle, get, store, set, count_hit, count_miss, count_set,
}

-- The entry is over exactly where it is older than its time.
over_iff :
    (now later : ℤ)
    → (ltb_ℤ (pos 0) ttl_message_list && ltb_ℤ (now +ℤ ttl_message_list) later)
      ≡ ltb_ℤ ttl_message_list (later -ℤ now)
over_iff now later = ground (arith, +ℤ_parts now ttl_message_list, -ℤ_parts later now)

nonempty : (c : Char) (s : String) → str_eq (String.◌∷◌ c s) "" ≡ false
nonempty c s = elim (Bool-cases (str_eq (String.◌∷◌ c s) "")) [
  | inl e ↦ absurd (cons-ne-nil c s ((eq_iff (String.◌∷◌ c s) "").0 e))
  | inr e ↦ e
]

guards :
    {A : Type 0} (o u p : Bool) (x y : A)
    → ◌≡◌ {A = A}
        (if o then x else if not u && p then x else y)
        (if not o && (u || not p) then y else x)
guards true u p x y = refl
guards false true p x y = refl
guards false false true x y = refl
guards false false false x y = refl

module _ {M : Type 0} where
  -- How the JSON of a value comes out: a text of an object, which decodes to the value.
  pub record Encodes (json : Json M) (x : CachedMessageList M) (s : String) : Type 0 where
    pub encodes : json.marshal x ≡ some (String.◌∷◌ "{" s)
    pub decodes : json.unmarshal (String.◌∷◌ "{" s) ≡ some x
    pub is_json : json.valid (String.◌∷◌ "{" s) ≡ true

  abbrev pub entry : ℤ → MessageList M → ℕ → CachedMessageList M
  entry now list modseq = record {
    message_list = some list;
    cached_modseq = modseq;
    cached_at = now;
  }

  -- Whether `Get` still returns the list.
  abbrev pub is_served : MessageList M → ℕ → ℕ → ℤ → Bool
  is_served list modseq current count =
      not (eqb_ℤ list.current_page (pos 1))
      || (modseq == current && (not (modseq == 0) || eqb_ℤ list.total_count count))

  unchanged_or_later :
      (now : ℤ) (list : MessageList M) (modseq current : ℕ) (count : ℤ)
      → (modseq_unchanged (entry now list modseq) list current count
          || not (eqb_ℤ list.current_page (pos 1)))
        ≡ is_served list modseq current count
  unchanged_or_later now list modseq current count = ground arith

  examine-Encodes :
      (json : Json M) (x : CachedMessageList M) (s : String) (now : ℤ) (modseq : ℕ) (count : ℤ)
      → Encodes json x s
      → examine json now modseq count (some (String.◌∷◌ "{" s)) ≡ judge now modseq count x
  unfolding examine
  examine-Encodes json x s now modseq count h =
      let full = nonempty "{" s in rw (full, h.is_json, h.decodes) refl

  judge-entry :
      (now later : ℤ) (list : MessageList M) (modseq current : ℕ) (count : ℤ)
      → judge later current count (entry now list modseq) ≡ (
          if not (ltb_ℤ ttl_message_list (later -ℤ now)) && is_served list modseq current count
          then hit list
          else miss)
  unfolding judge
  judge-entry now later list modseq current count =
      guards (ltb_ℤ ttl_message_list (later -ℤ now))
        (modseq_unchanged (entry now list modseq) list current count)
        (eqb_ℤ list.current_page (pos 1)) miss (hit list)
      ∙ ap
          (λ (served : Bool).
            if not (ltb_ℤ ttl_message_list (later -ℤ now)) && served then hit list else miss)
          (unchanged_or_later now list modseq current count)

  examine-old :
      (json : Json M) (x : CachedMessageList M) (s : String) (now : ℤ) (modseq : ℕ) (count : ℤ)
      (list : MessageList M) (old served : Bool)
      → Encodes json x s
      → judge now modseq count x ≡ (if not old && served then hit list else miss)
      → examine json now modseq count (if old then none else some (String.◌∷◌ "{" s))
        ≡ (if not old && served then hit list else miss)
  unfolding examine
  examine-old json x s now modseq count list true served h e = refl
  examine-old json x s now modseq count list false served h e =
      examine-Encodes json x s now modseq count h ∙ e

module _ {C : Type 0} (ops : CacheClient C) where
  -- The cache after a call of `Set` that succeeds.
  stored : ℤ → MessageListCache C → C → String → String → MessageListCache C
  stored now s m key bytes = count_set (record s {
    cache = some (record { client = some (ops.set now m key bytes ttl_message_list).0 });
  })

  store-stored :
      (now : ℤ) (s : MessageListCache C) (m : C) (key bytes : String) (valid : String → Bool)
      → valid (String.◌∷◌ "{" bytes) ≡ true
      → (ops.set now m key (String.◌∷◌ "{" bytes) ttl_message_list).1 ≡ true
      → store ops now s (record { client = some m }) key valid (some (String.◌∷◌ "{" bytes))
        ≡ (stored now s m key (String.◌∷◌ "{" bytes), true)
  unfolding store cache_set stored
  store-stored now s m key bytes valid v ok =
      let all = String.◌∷◌ "{" bytes in
      let s' = record s {
        cache = some (record { client = some (ops.set now m key all ttl_message_list).0 });
      } in
      if_false (str_eq all "") _ _ (nonempty "{" bytes)
      ∙ if_false (not (is_valid_json valid all)) _ _ (rw v refl)
      ∙ if_true (ops.set now m key all ttl_message_list).1 (count_set s', true) (s', false) ok

  set-stored :
      {M : Type 0} (json : Json M) (now : ℤ) (s : MessageListCache C) (m : C) (key : String)
      (list : MessageList M) (modseq : ℕ) (bytes : String)
      → s.cache ≡ some (record { client = some m })
      → Encodes json (entry now list modseq) bytes
      → (ops.set now m key (String.◌∷◌ "{" bytes) ttl_message_list).1 ≡ true
      → set ops json now s key (some list) modseq
        ≡ (stored now s m key (String.◌∷◌ "{" bytes), true)
  unfolding set
  set-stored json now s m key list modseq bytes has h ok =
      ap
        (λ (o : Option (Cache C)). elim o as (λ _. MessageListCache C × Bool) [
          | none ↦ (s, true)
          | some c ↦ store ops now s c key json.valid (json.marshal (entry now list modseq))
        ])
        has
      ∙ ap (store ops now s (record { client = some m }) key json.valid) h.encodes
      ∙ store-stored now s m key bytes json.valid h.is_json ok

  get-settle :
      {M : Type 0} (json : Json M) (now : ℤ) (s : MessageListCache C) (m : C) (key : String)
      (modseq : ℕ) (count : ℤ) (found : Option String)
      → s.cache ≡ some (record { client = some m })
      → ops.get now m key ≡ some found
      → get ops json now s key modseq count
        ≡ settle ops s (record { client = some m }) key (examine json now modseq count found)
  unfolding get cache_get
  get-settle {M = M} json now s m key modseq count found has reads =
      let look : Cache C → Option (Option String) → MessageListCache C × Option (MessageList M) =
        λ c o. elim o as (λ _. MessageListCache C × Option (MessageList M)) [
          | none ↦ (count_miss s, none)
          | some bytes ↦ settle ops s c key (examine json now modseq count bytes)
        ] in
      ap
        (λ (o : Option (Cache C)). elim o as (λ _. MessageListCache C × Option (MessageList M)) [
          | none ↦ (s, none)
          | some c ↦ look c (cache_get ops now c key)
        ])
        has
      ∙ ap (look (record { client = some m })) reads

  settle-if :
      {M : Type 0} (s : MessageListCache C) (c : Cache C) (key : String) (b : Bool)
      (list : MessageList M)
      → settle ops s c key (if b then hit list else miss)
        ≡ (if b then (count_hit s, some list) else (count_miss s, none))
  unfolding settle
  settle-if s c key true list = refl
  settle-if s c key false list = refl

  -- Over a client that keeps its promise, `Get` after `Set` returns the list, and counts a hit, exactly
  -- while it is not older than five minutes and either its page is not the first or the modification
  -- sequence is that of the call of `Set` and, where it is 0, the number of messages is unchanged; else it
  -- counts a miss. The JSON of the stored value decodes to that value, and the client stores it.
  pub get-set_list :
      {M : Type 0} (laws : CacheLaws ops) (json : Json M) (now later : ℤ) (s : MessageListCache C)
      (m : C) (key : String) (list : MessageList M) (modseq current : ℕ) (count : ℤ)
      (bytes : String)
      → s.cache ≡ some (record { client = some m })
      → Encodes json (entry now list modseq) bytes
      → (ops.set now m key (String.◌∷◌ "{" bytes) ttl_message_list).1 ≡ true
      → let s' = (set ops json now s key (some list) modseq).0 in
        get ops json later s' key current count ≡ (
          if not (ltb_ℤ ttl_message_list (later -ℤ now)) && is_served list modseq current count
          then (count_hit s', some list)
          else (count_miss s', none))
  unfolding stored count_set
  get-set_list laws json now later s m key list modseq current count bytes has h ok =
      let all = String.◌∷◌ "{" bytes in
      let m' = (ops.set now m key all ttl_message_list).0 in
      let s' = stored now s m key all in
      let old = ltb_ℤ ttl_message_list (later -ℤ now) in
      let fresh = not old && is_served list modseq current count in
      let reads =
        laws.reads now later m key all ttl_message_list ok
        ∙ ap (λ (b : Bool). some (if b then none else some all)) (over_iff now later) in
      rw (set-stored json now s m key list modseq bytes has h ok) (
        get-settle json later s' m' key current count (if old then none else some all) refl reads
        ∙ ap (settle ops s' (record { client = some m' }) key) (
            examine-old json (entry now list modseq) bytes later current count list old
              (is_served list modseq current count) h
              (judge-entry now later list modseq current count))
        ∙ settle-if s' (record { client = some m' }) key fresh list)
