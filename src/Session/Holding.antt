-- ===== src/Session/Holding.antt =====
-- internal/pool/imap_session_pool.go: who holds the session of an account. `lent` maps an account to
-- the adapter of the pooled session that a caller of `Acquire` holds and has not released.
use webmail_engine.Base.{
  ℕ, ◌≡◌, refl, ◌∙◌, sym, subst, Bool, true, false, List, [], ◌∷◌, Option, none, some, String,
  arith, str_eq, Bool-cases, inl, inr, if_true, if_false, if◌then◌else◌, ◌==◌,
}
use webmail_engine.Base.Int.{ℤ, ◌-ℤ◌}
use webmail_engine.Base.Dict.{Dict, lookup, insert, remove, lookup-insert, lookup-remove}
use webmail_engine.Session.{
  PooledSession, SessionPoolConfig, ImapSessionPool, Release, returns_session, closes_adapter,
  Admission, reused, failed_recently, admit, admit_session, take_idle, count_connect, connected,
  connect_failed, release, is_expired, is_healthy, mark_expired, perform_cleanup, invalidate,
  begin_keep_alive, end_ping,
}

pub data Event : Type 0 where
  admits : (now : ℤ) (account_id : String) → Event
  arrives : (now : ℤ) (account_id : String) (adapter : ℕ) → Event
  fails : (now : ℤ) (account_id : String) (is_auth_failure : Bool) → Event
  returns : (now : ℤ) (account_id : String) → Event
  cleans : ℤ → Event
  invalidates : String → Event
  pings : Event
  ping_ends : (account_id : String) (adapter : ℕ) (answers : Bool) → Event

unfoldable pub lend : Dict ℕ → String → Admission → Dict ℕ
lend lent account_id (reused adapter r) = insert account_id adapter lent
lend lent account_id _ = lent

unfoldable pub lend_new : Dict ℕ → String → ℕ → Release → Dict ℕ
lend_new lent account_id adapter returns_session = insert account_id adapter lent
lend_new lent account_id adapter closes_adapter = lent

abbrev pub is_lent : Option ℕ → ℕ → Bool
is_lent none adapter = false
is_lent (some held) adapter = held == adapter

-- Only a caller that holds a session releases one, a session is invalidated while no caller holds it,
-- and a keep-alive ping ends for an adapter that no caller holds.
unfoldable pub event_step : ImapSessionPool × Dict ℕ → Event → ImapSessionPool × Dict ℕ
unfolding lend lend_new
event_step (p, lent) (admits now a) = ((admit now p a).0, lend lent a (admit now p a).1)
event_step (p, lent) (arrives now a adapter) =
    ((connected now p a adapter).0, lend_new lent a adapter (connected now p a adapter).1)
event_step (p, lent) (fails now a auth) = ((connect_failed now p a auth).0, lent)
event_step (p, lent) (returns now a) = elim (lookup a lent) [
  | none ↦ (p, lent)
  | some adapter ↦ (release now p a, remove a lent)
]
event_step (p, lent) (cleans now) = (perform_cleanup now p, lent)
event_step (p, lent) (invalidates a) = elim (lookup a lent) [
  | none ↦ (invalidate p a, lent)
  | some adapter ↦ (p, lent)
]
event_step (p, lent) pings = ((begin_keep_alive p).0, lent)
event_step (p, lent) (ping_ends a adapter answers) =
    if is_lent (lookup a lent) adapter then (p, lent) else (end_ping p a adapter answers, lent)

unfoldable pub events : ImapSessionPool × Dict ℕ → List Event → ImapSessionPool × Dict ℕ
events s [] = s
events s (e ∷ es) = events (event_step s e) es

-- The session of an account in the pool is in use, healthy, and has this adapter.
pub record IsHeld (sessions : Dict PooledSession) (a : String) (adapter : ℕ) : Type 0 where
  pub session : PooledSession
  pub found : lookup a sessions ≡ some session
  pub same : session.adapter ≡ adapter
  pub busy : session.in_use ≡ true
  pub sound : session.healthy ≡ true

abbrev pub Inv : Dict PooledSession → Dict ℕ → Type 0
Inv sessions lent =
    (a : String) (adapter : ℕ) → lookup a lent ≡ some adapter → IsHeld sessions a adapter

-- A session that is put in the pool in use, for a caller.
insert-Inv :
    (sessions : Dict PooledSession) (lent : Dict ℕ) (a : String) (session : PooledSession)
    → Inv sessions lent
    → session.in_use ≡ true
    → session.healthy ≡ true
    → Inv (insert a session sessions) (insert a session.adapter lent)
insert-Inv sessions lent a session h busy sound k adapter e = elim (Bool-cases (str_eq a k)) [
  | inl here ↦ record {
    session = session;
    found =
        lookup-insert a k session sessions
        ∙ if_true (str_eq a k) (some session) (lookup k sessions) here;
    same = ground (arith, lookup-insert a k session.adapter lent);
    busy = busy;
    sound = sound;
  }
  | inr other ↦
      (let old = h k adapter (ground (arith, lookup-insert a k session.adapter lent)) in
        record {
          session = old.session;
          found =
              lookup-insert a k session sessions
              ∙ if_false (str_eq a k) (some session) (lookup k sessions) other
              ∙ old.found;
          same = old.same;
          busy = old.busy;
          sound = old.sound;
        })
]

-- A session whose caller gives it back.
remove-Inv :
    (sessions : Dict PooledSession) (lent : Dict ℕ) (a : String) (session : PooledSession)
    → Inv sessions lent
    → Inv (insert a session sessions) (remove a lent)
remove-Inv sessions lent a session h k adapter e = elim (Bool-cases (str_eq a k)) [
  | inl here ↦
      absurd
        (let gone = lookup-remove a k lent ∙ if_true (str_eq a k) none (lookup k lent) here in cc)
  | inr other ↦
      (let old = h k adapter (ground (arith, lookup-remove a k lent)) in
        record {
          session = old.session;
          found =
              lookup-insert a k session sessions
              ∙ if_false (str_eq a k) (some session) (lookup k sessions) other
              ∙ old.found;
          same = old.same;
          busy = old.busy;
          sound = old.sound;
        })
]

busy_unexpired :
    (now : ℤ) (config : SessionPoolConfig) (session : PooledSession)
    → session.in_use ≡ true
    → session.healthy ≡ true
    → is_expired now config session ≡ false
busy_unexpired now config session busy sound = rw (busy, sound) refl

admit_session-Inv :
    (now : ℤ) (p : ImapSessionPool) (lent : Dict ℕ) (a : String) (o : Option PooledSession)
    → lookup a p.sessions ≡ o
    → Inv p.sessions lent
    → Inv (admit_session now p a o).0.sessions (lend lent a (admit_session now p a o).1)
unfolding admit_session count_connect take_idle lend
admit_session-Inv now p lent a none e h = h
admit_session-Inv now p lent a (some session) e h = elim (Bool-cases session.healthy) [
  | inr sick ↦ rw sick h
  | inl sound ↦ elim (Bool-cases session.in_use) [
    | inl busy ↦ rw (sound, busy) h
    | inr idle ↦
        rw (sound, idle)
          (insert-Inv p.sessions lent a
            (record session { in_use = true; last_used = now; healthy = true }) h refl refl)
  ]
]

pub admit-Inv :
    (now : ℤ) (p : ImapSessionPool) (lent : Dict ℕ) (a : String)
    → Inv p.sessions lent
    → Inv (admit now p a).0.sessions (lend lent a (admit now p a).1)
unfolding admit lend
admit-Inv now p lent a h = elim (Bool-cases (failed_recently now (lookup a p.last_failure))) [
  | inl recent ↦ rw (recent, admit) h
  | inr quiet ↦ rw (quiet, admit) (admit_session-Inv now p lent a (lookup a p.sessions) refl h)
]

pub connected-Inv :
    (now : ℤ) (p : ImapSessionPool) (lent : Dict ℕ) (a : String) (adapter : ℕ)
    → Inv p.sessions lent
    → Inv
        (connected now p a adapter).0.sessions
        (lend_new lent a adapter (connected now p a adapter).1)
unfolding connected lend_new
connected-Inv now p lent a adapter h = elim (Bool-cases (is_healthy (lookup a p.sessions))) [
  | inl there ↦ rw (there, connected) h
  | inr absent ↦
      rw (absent, connected)
        (insert-Inv p.sessions lent a
          (record {
            adapter = adapter;
            in_use = true;
            last_used = now;
            created_at = now;
            healthy = true;
          })
          h refl refl)
]

pub release-Inv :
    (now : ℤ) (p : ImapSessionPool) (lent : Dict ℕ) (a : String) (session : PooledSession)
    → lookup a p.sessions ≡ some session
    → Inv p.sessions lent
    → Inv (release now p a).sessions (remove a lent)
unfolding release
release-Inv now p lent a session found h =
    rw (found, release)
      (remove-Inv p.sessions lent a (record session { in_use = false; last_used = now }) h)

-- The cleanup leaves a session in use as it is.
pub lookup-mark_expired :
    (now : ℤ) (config : SessionPoolConfig) (sessions : Dict PooledSession) (a : String)
    (session : PooledSession)
    → session.in_use ≡ true
    → session.healthy ≡ true
    → lookup a sessions ≡ some session
    → lookup a (mark_expired now config sessions) ≡ some session
unfolding lookup mark_expired ◌-ℤ◌
lookup-mark_expired now config [] a session busy sound e = e
lookup-mark_expired now config ((k, s) ∷ rest) a session busy sound e =
    elim (Bool-cases (str_eq k a)) [
      | inl here ↦
          (let is_session : some s ≡ some session =
              sym (if_true (str_eq k a) (some s) (lookup a rest) here) ∙ e in
            let same : session ≡ s = cc in
            let kept : is_expired now config s ≡ false =
              subst (λ (r : PooledSession). is_expired now config r ≡ false) same
                (busy_unexpired now config session busy sound) in
            rw (here, kept) is_session)
      | inr other ↦ rw other (
          lookup-mark_expired now config rest a session busy sound
            (sym (if_false (str_eq k a) (some s) (lookup a rest) other) ∙ e))
    ]
