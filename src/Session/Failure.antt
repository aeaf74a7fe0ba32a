-- ===== src/Session/Failure.antt =====
-- internal/pool/imap_session_pool.go: what follows a failed connection or an invalidated session.
use webmail_engine.Base.{
  ℕ, ◌≡◌, ◌≢◌, refl, ◌∙◌, ap, ◌==◌, List, [], ◌∷◌, Bool, true, false, Bool-cases, inl, inr, String,
  Option, none, some, if◌then◌else◌,
}
use webmail_engine.Base.Int.{ℤ, pos, ◌-ℤ◌, ltb_ℤ}
use webmail_engine.Base.Dict.{
  lookup, insert, lookup-insert_self, lookup-insert_ne, remove, lookup-remove_self,
}
use webmail_engine.Session.{
  PooledSession, ImapSessionPool, Release, closes_adapter, Admission, reused, connects,
  returns_session, throttled, take_idle, count_connect, failed_recently, admit, admit_session,
  connect_failed, connected, release, invalidate, is_healthy,
}

failed_admission :
    (p : ImapSessionPool) (a : String) (now later : ℤ) (auth : Bool)
    → failed_recently later (lookup a (connect_failed now p a auth).0.last_failure)
      ≡ ltb_ℤ (later -ℤ now) (pos 10000000000)
unfolding connect_failed failed_recently
failed_admission p a now later auth = rw (lookup-insert_self a now p.last_failure) refl

-- The outcome depends on the session and not on the rest of the pool.
admit_session-session :
    (now : ℤ) (p q : ImapSessionPool) (a : String) (o : Option PooledSession)
    → (admit_session now p a o).1 ≡ (admit_session now q a o).1
unfolding admit_session
admit_session-session now p q a none = refl
admit_session-session now p q a (some session) = elim (Bool-cases session.healthy) [
  | inr sick ↦ rw sick refl
  | inl sound ↦ elim (Bool-cases session.in_use) [
    | inl busy ↦ rw (sound, busy) refl
    | inr idle ↦ rw (sound, idle) refl
  ]
]

other_admission :
    (p : ImapSessionPool) (a b : String) (now later : ℤ) (auth : Bool)
    → b ≢ a
    → (admit later (connect_failed now p a auth).0 b).1 ≡ (admit later p b).1
unfolding admit connect_failed
other_admission p a b now later auth differ =
    let same = lookup-insert_ne a b now p.last_failure differ in
    elim (Bool-cases (failed_recently later (lookup b p.last_failure))) [
      | inl recent ↦ rw (same, recent, admit) refl
      | inr quiet ↦
          rw (same, quiet, admit)
            (admit_session-session later (connect_failed now p a auth).0 p b (lookup b p.sessions))
    ]

-- For ten seconds after a failed connection `Acquire` refuses the account without a connection and
-- changes nothing, then it goes on as it would have; other accounts are not refused for it.
pub connect_failed_lem :
    (p : ImapSessionPool) (a b : String) (now later : ℤ) (auth : Bool)
    → b ≢ a
    → (admit later (connect_failed now p a auth).0 a ≡ (
        if ltb_ℤ (later -ℤ now) (pos 10000000000)
        then ((connect_failed now p a auth).0, throttled)
        else admit_session later (connect_failed now p a auth).0 a (lookup a p.sessions)))
      × ((admit later (connect_failed now p a auth).0 b).1 ≡ (admit later p b).1)
unfolding admit
connect_failed_lem p a b now later auth differ = (
  rw (failed_admission p a now later auth) (unfold connect_failed in refl),
  other_admission p a b now later auth differ,
)

new_session : ℤ → ℕ → PooledSession
new_session now adapter = record {
  adapter = adapter;
  in_use = true;
  last_used = now;
  created_at = now;
  healthy = true;
}

replaced : ImapSessionPool → String → PooledSession → ImapSessionPool
replaced p a session = record p { sessions = insert a session (remove a p.sessions) }

connected-invalidate :
    (p : ImapSessionPool) (a : String) (adapter : ℕ) (t1 : ℤ)
    → connected t1 (invalidate p a) a adapter
      ≡ (replaced p a (new_session t1 adapter), returns_session)
unfolding invalidate connected replaced new_session
connected-invalidate p a adapter t1 =
    let gone : is_healthy (lookup a (remove a p.sessions)) ≡ false =
      rw (lookup-remove_self a p.sessions) refl in
    rw (gone, connected) refl

stale_admission :
    (p : ImapSessionPool) (a : String) (adapter : ℕ) (t1 t2 t3 : ℤ)
    → failed_recently t3 (lookup a p.last_failure) ≡ false
    → (admit t3 (release t2 (replaced p a (new_session t1 adapter)) a) a).1
      ≡ reused adapter returns_session
unfolding admit release replaced new_session admit_session
stale_admission p a adapter t1 t2 t3 quiet =
    let session = new_session t1 adapter in
    let idle = record session { in_use = false; last_used = t2 } in
    let others = insert a session (remove a p.sessions) in
    rw (lookup-insert_self a session (remove a p.sessions), release)
      (rw (quiet, admit) (rw (lookup-insert_self a idle others) refl))

-- What the callers do, each with a number, and what an account's session goes through.
pub data CallerEvent : Type 0 where
  acquires : (caller : ℕ) (now : ℤ) (account_id : String) → CallerEvent
  connects_new : (caller : ℕ) (now : ℤ) (account_id : String) (adapter : ℕ) → CallerEvent
  gives_back : (caller : ℕ) (now : ℤ) (account_id : String) → CallerEvent
  is_invalidated : String → CallerEvent

-- The callers that hold a session of the pool, with its adapter.
unfoldable pub hold : ℕ → Admission → List (ℕ × ℕ) → List (ℕ × ℕ)
hold caller (reused adapter r) holders = (caller, adapter) ∷ holders
hold caller _ holders = holders

unfoldable pub hold_new : ℕ → ℕ → Release → List (ℕ × ℕ) → List (ℕ × ℕ)
hold_new caller adapter returns_session holders = (caller, adapter) ∷ holders
hold_new caller adapter closes_adapter holders = holders

abbrev pub without : ℕ → List (ℕ × ℕ) → List (ℕ × ℕ)
without caller [] = []
without caller ((c, adapter) ∷ rest) =
    let others = without caller rest in if c == caller then others else (c, adapter) ∷ others

unfoldable pub caller_step :
    ImapSessionPool × List (ℕ × ℕ) → CallerEvent → ImapSessionPool × List (ℕ × ℕ)
unfolding hold hold_new
caller_step (p, holders) (acquires c now a) = ((admit now p a).0, hold c (admit now p a).1 holders)
caller_step (p, holders) (connects_new c now a adapter) =
    ((connected now p a adapter).0, hold_new c adapter (connected now p a adapter).1 holders)
caller_step (p, holders) (gives_back c now a) = (release now p a, without c holders)
caller_step (p, holders) (is_invalidated a) = (invalidate p a, holders)

unfoldable pub callers :
    ImapSessionPool × List (ℕ × ℕ) → List CallerEvent → ImapSessionPool × List (ℕ × ℕ)
callers s [] = s
callers s (e ∷ es) = callers (caller_step s e) es

callers-after :
    (s s' : ImapSessionPool × List (ℕ × ℕ)) (e : CallerEvent) (es : List CallerEvent)
    (holders : List (ℕ × ℕ))
    → caller_step s e ≡ s'
    → (callers s' es).1 ≡ holders
    → (callers s (e ∷ es)).1 ≡ holders
unfolding callers
callers-after s s' e es holders step rest =
    ap (λ (x : ImapSessionPool × List (ℕ × ℕ)). (callers x es).1) step ∙ rest

callers-end : (s : ImapSessionPool × List (ℕ × ℕ)) → (callers s []).1 ≡ s.1
unfolding callers
callers-end s = refl

-- Caller 1 takes the idle session of an account.
takes_idle :
    (p : ImapSessionPool) (a : String) (session : PooledSession) (now : ℤ)
    → lookup a p.sessions ≡ some session
    → session.healthy ≡ true
    → session.in_use ≡ false
    → lookup a p.last_failure ≡ none
    → admit now p a ≡ (take_idle now p a session, reused session.adapter returns_session)
unfolding admit failed_recently admit_session
takes_idle p a session now found sound idle quiet =
    rw (quiet, admit) (rw (found) (rw (sound, idle) refl))

finds_none :
    (p : ImapSessionPool) (a : String) (now : ℤ)
    → lookup a p.last_failure ≡ none
    → admit now (invalidate p a) a ≡ (invalidate (count_connect p) a, connects)
unfolding admit failed_recently admit_session invalidate count_connect
finds_none p a now quiet = rw (quiet, admit) (rw (lookup-remove_self a p.sessions) refl)

-- A release names the account and not the session. Caller 1 takes the idle session of an account, which
-- is invalidated while caller 1 holds it; caller 2 finds no session and connects; then caller 1 gives
-- its session back, and caller 3 acquires. Where no connection of the account has failed before, caller 3
-- is handed the adapter that caller 2 holds and has not released.
pub release_stale :
    (p : ImapSessionPool) (a : String) (session : PooledSession) (adapter : ℕ) (t0 t1 t2 t3 t4 : ℤ)
    → lookup a p.sessions ≡ some session
    → session.healthy ≡ true
    → session.in_use ≡ false
    → lookup a p.last_failure ≡ none
    → (callers
        (p, [])
        (acquires 1 t0 a
          ∷ is_invalidated a
          ∷ acquires 2 t1 a
          ∷ connects_new 2 t2 a adapter
          ∷ gives_back 1 t3 a
          ∷ acquires 3 t4 a
          ∷ [])).1
      ≡ (3, adapter) ∷ (2, adapter) ∷ []
unfolding caller_step
release_stale p a session adapter t0 t1 t2 t3 t4 found sound idle quiet =
    let p1 = take_idle t0 p a session in
    let quiet1 : lookup a p1.last_failure ≡ none = unfold take_idle in quiet in
    let p2 = count_connect p1 in
    let quiet2 : failed_recently t4 (lookup a p2.last_failure) ≡ false =
      unfold count_connect failed_recently in rw quiet1 refl in
    let p3 = replaced p2 a (new_session t2 adapter) in
    callers-after (p, []) (p1, (1, session.adapter) ∷ []) (acquires 1 t0 a) _ _
      (rw (takes_idle p a session t0 found sound idle quiet) refl)
      (callers-after _ (invalidate p1 a, (1, session.adapter) ∷ []) (is_invalidated a) _ _ refl
        (callers-after _ (invalidate p2 a, (1, session.adapter) ∷ []) (acquires 2 t1 a) _ _
          (rw (finds_none p1 a t1 quiet1) refl)
          (callers-after _ (p3, (2, adapter) ∷ (1, session.adapter) ∷ [])
            (connects_new 2 t2 a adapter) _ _ (rw (connected-invalidate p2 a adapter t2) refl)
            (callers-after _ (release t3 p3 a, (2, adapter) ∷ []) (gives_back 1 t3 a) _ _ refl
              (callers-after _ ((admit t4 (release t3 p3 a) a).0, (3, adapter) ∷ (2, adapter) ∷ [])
                (acquires 3 t4 a) _ _ (rw (stale_admission p2 a adapter t2 t3 t4 quiet2) refl)
                (callers-end _))))))
