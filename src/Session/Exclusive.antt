-- ===== src/Session/Exclusive.antt =====
-- internal/pool/imap_session_pool.go: a session that a caller of `Acquire` holds is handed to no other.
use webmail_engine.Session.Holding.{
  Event, admits, arrives, fails, returns, cleans, invalidates, pings, ping_ends, is_lent,
  event_step, events, Inv, admit-Inv, connected-Inv, release-Inv, lookup-mark_expired,
}
use webmail_engine.Base.{
  ℕ, ◌≡◌, refl, ◌∙◌, sym, subst, Bool, true, false, List, [], ◌∷◌, Option, none, some, String,
  arith, str_eq, Bool-cases, Option-cases, inl, inr, if_true, if_false, if_split, if◌then◌else◌,
  ◌==◌, eq_iff, ap,
}
use webmail_engine.Base.Int.{ℤ}
use webmail_engine.Base.Dict.{Dict, lookup, remove, lookup-insert, lookup-remove}
use webmail_engine.Session.{
  PooledSession, SessionPoolConfig, ImapSessionPool, returns_session, throttled, reused, bursts,
  failed_recently, admit, admit_session, connect_failed, perform_cleanup, new_session_pool,
  invalidate, take_all_idle, begin_keep_alive, end_ping,
}

-- The keep-alive leaves a session in use as it is.
lookup-take_all_idle :
    (sessions : Dict PooledSession) (a : String) (session : PooledSession)
    → session.in_use ≡ true
    → lookup a sessions ≡ some session
    → lookup a (take_all_idle sessions) ≡ some session
unfolding lookup take_all_idle
lookup-take_all_idle [] a session busy e = e
lookup-take_all_idle ((k, s) ∷ rest) a session busy e = elim (Bool-cases (str_eq k a)) [
  | inl here ↦
      (let is_session : some s ≡ some session =
          sym (if_true (str_eq k a) (some s) (lookup a rest) here) ∙ e in
        let same : session ≡ s = cc in
        let busy_here : s.in_use ≡ true =
          subst (λ (r : PooledSession). r.in_use ≡ true) same busy in
        let kept : (if s.healthy then record s { in_use = true } else s) ≡ s =
          if_split (λ (r : PooledSession). r ≡ s) s.healthy (λ _. rw (sym busy_here) refl)
            (λ _. refl) in
        rw (here, kept) is_session)
  | inr other ↦ rw other (
      lookup-take_all_idle rest a session busy
        (sym (if_false (str_eq k a) (some s) (lookup a rest) other) ∙ e))
]

begin_keep_alive-Inv :
    (p : ImapSessionPool) (lent : Dict ℕ)
    → Inv p.sessions lent
    → Inv (begin_keep_alive p).0.sessions lent
unfolding begin_keep_alive
begin_keep_alive-Inv p lent h a adapter e =
    let at = h a adapter e in
    record {
      session = at.session;
      found = lookup-take_all_idle p.sessions a at.session at.busy at.found;
      same = at.same;
      busy = at.busy;
      sound = at.sound;
    }

-- A session of the pool that no caller holds may change or go.
apart-Inv :
    (sessions sessions' : Dict PooledSession) (lent : Dict ℕ) (a : String)
    → ((k : String) → str_eq a k ≡ false → lookup k sessions' ≡ lookup k sessions)
    → lookup a lent ≡ none
    → Inv sessions lent
    → Inv sessions' lent
apart-Inv sessions sessions' lent a frame free h k adapter e = elim (Bool-cases (str_eq a k)) [
  | inl here ↦ absurd (
      let same : a ≡ k = ground (arith, eq_iff a k) in
      let gone : lookup k lent ≡ none = subst (λ (x : String). lookup x lent ≡ none) same free in
      cc)
  | inr other ↦
      (let old = h k adapter e in
        record {
          session = old.session;
          found = frame k other ∙ old.found;
          same = old.same;
          busy = old.busy;
          sound = old.sound;
        })
]

invalidate-Inv :
    (p : ImapSessionPool) (lent : Dict ℕ) (a : String)
    → lookup a lent ≡ none
    → Inv p.sessions lent
    → Inv (invalidate p a).sessions lent
unfolding invalidate
invalidate-Inv p lent a = apart-Inv p.sessions (remove a p.sessions) lent a (λ k other.
    lookup-remove a k p.sessions ∙ if_false (str_eq a k) none (lookup k p.sessions) other)

-- The pool's session of the account has the adapter that no caller holds: no caller holds a session.
unlent :
    (sessions : Dict PooledSession) (lent : Dict ℕ) (a : String) (adapter : ℕ)
    (session : PooledSession)
    → lookup a sessions ≡ some session
    → (session.adapter == adapter) ≡ true
    → is_lent (lookup a lent) adapter ≡ false
    → Inv sessions lent
    → lookup a lent ≡ none
unlent sessions lent a adapter session found same free h = elim (Option-cases (lookup a lent)) [
  | inl missing ↦ missing
  | inr (held, is_held) ↦
      (let at = h a held is_held in
        let is_session : some at.session ≡ some session = sym at.found ∙ found in
        let one : at.session ≡ session = cc in
        let differs : (held == adapter) ≡ false =
          subst (λ (o : Option ℕ). is_lent o adapter ≡ false) is_held free in
        let equal : session.adapter ≡ held =
          ap (λ (r : PooledSession). r.adapter) (sym one) ∙ at.same in
        absurd (ground (arith)))
]

end_ping-Inv :
    (p : ImapSessionPool) (lent : Dict ℕ) (a : String) (adapter : ℕ) (answers : Bool)
    → is_lent (lookup a lent) adapter ≡ false
    → Inv p.sessions lent
    → Inv (end_ping p a adapter answers).sessions lent
unfolding end_ping
end_ping-Inv p lent a adapter answers free h = elim (Option-cases (lookup a p.sessions)) [
  | inl missing ↦ rw (missing, end_ping) h
  | inr (session, found) ↦
      rw (found, end_ping)
        (if_split (λ (q : ImapSessionPool). Inv q.sessions lent) (session.adapter == adapter)
          (λ same.
            apart-Inv p.sessions _ lent a
              (λ k other.
                lookup-insert a k _ p.sessions
                ∙ if_false (str_eq a k) _ (lookup k p.sessions) other)
              (unlent p.sessions lent a adapter session found same free h) h)
          (λ _. h))
]

step-Inv :
    (s : ImapSessionPool × Dict ℕ) (e : Event)
    → Inv s.0.sessions s.1
    → Inv (event_step s e).0.sessions (event_step s e).1
unfolding event_step
step-Inv (p, lent) (admits now a) h = admit-Inv now p lent a h
step-Inv (p, lent) (arrives now a adapter) h = connected-Inv now p lent a adapter h
step-Inv (p, lent) (fails now a auth) h = unfold connect_failed in h
step-Inv (p, lent) (returns now a) h = elim (Option-cases (lookup a lent)) [
  | inl missing ↦ rw (missing, event_step) h
  | inr (adapter, held) ↦
      (let at = h a adapter held in
        rw (held, event_step) (release-Inv now p lent a at.session at.found h))
]
step-Inv (p, lent) (cleans now) h = λ a adapter e.
    (let at = h a adapter e in
      record {
        session = at.session;
        found =
            unfold perform_cleanup in
            lookup-mark_expired now p.config p.sessions a at.session at.busy at.sound at.found;
        same = at.same;
        busy = at.busy;
        sound = at.sound;
      })
step-Inv (p, lent) (invalidates a) h = elim (Option-cases (lookup a lent)) [
  | inl missing ↦ rw (missing, event_step) (invalidate-Inv p lent a missing h)
  | inr (adapter, held) ↦ rw (held, event_step) h
]
step-Inv (p, lent) pings h = begin_keep_alive-Inv p lent h
step-Inv (p, lent) (ping_ends a adapter answers) h =
    if_split (λ (s : ImapSessionPool × Dict ℕ). Inv s.0.sessions s.1)
      (is_lent (lookup a lent) adapter) (λ _. h)
      (λ free. end_ping-Inv p lent a adapter answers free h)

events-Inv :
    (es : List Event) (s : ImapSessionPool × Dict ℕ)
    → Inv s.0.sessions s.1
    → Inv (events s es).0.sessions (events s es).1
unfolding events
events-Inv [] s h = h
events-Inv (e ∷ es) s h = events-Inv es (event_step s e) (step-Inv s e h)

-- After any history of a new pool (the parts of concurrent calls of `Acquire`, releases by callers that
-- hold the session, cleanups, keep-alives, invalidations while no caller holds the account's session, and
-- ends of keep-alive pings of adapters that no caller holds) each session that a caller holds is in the
-- pool, in use, healthy, and the caller's own.
pub events-new-Inv :
    (config : SessionPoolConfig) (es : List Event)
    → Inv
        (events (new_session_pool config, []) es).0.sessions
        (events (new_session_pool config, []) es).1
unfolding new_session_pool lookup
events-new-Inv config es = events-Inv es (new_session_pool config, []) (λ a adapter e. absurd (cc))

not_lent :
    (now : ℤ) (p : ImapSessionPool) (lent : Dict ℕ) (a : String) (adapter : ℕ)
    → Inv p.sessions lent
    → (admit now p a).1 ≡ reused adapter returns_session
    → lookup a lent ≡ none
unfolding admit
not_lent now p lent a adapter h e = elim (Option-cases (lookup a lent)) [
  | inl missing ↦ missing
  | inr (held, is_lent) ↦
      (let at = h a held is_lent in
        absurd (elim (Bool-cases (failed_recently now (lookup a p.last_failure))) [
          | inl recent ↦ (let no : (admit now p a).1 ≡ throttled = rw (recent, admit) refl in cc)
          | inr quiet ↦
              (let no : (admit now p a).1 ≡ bursts =
                  unfold admit_session in
                  rw (quiet, admit) (rw (at.found) (rw (at.sound, at.busy) refl)) in
                cc)
        ]))
]

-- An `Acquire` that hands out the pooled session of an account does so while no caller holds the session
-- of that account, after every history of a new pool made of: the parts of concurrent calls of `Acquire`
-- (before the connection, and after it succeeded or failed), releases by callers that hold the account's
-- session, the marking of expired sessions by cleanups, the beginnings of keep-alives, ends of keep-alive
-- pings of adapters that no caller holds, and calls of `Invalidate`, those that a cleanup starts included,
-- where no caller holds the account's session. An `Invalidate` while a caller holds it is excluded.
pub events-reused :
    (now : ℤ) (config : SessionPoolConfig) (es : List Event) (a : String) (adapter : ℕ)
    → (admit now (events (new_session_pool config, []) es).0 a).1 ≡ reused adapter returns_session
    → lookup a (events (new_session_pool config, []) es).1 ≡ none
events-reused now config es a adapter =
    not_lent now (events (new_session_pool config, []) es).0
      (events (new_session_pool config, []) es).1 a adapter (events-new-Inv config es)
