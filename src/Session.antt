-- ===== src/Session.antt =====
-- internal/pool/imap_session_pool.go: `IMAPSessionPool`. A method takes the pool and returns the new
-- one with its result. `Acquire` gives the mutex up while it connects: `admit` is what it does
-- before, `connected` and `connect_failed` what it does with the outcome. An adapter, a live
-- connection, is a number; what is sent over it is left out, and so is the use of the service
-- behind `DisableAccount`: `connect_failed` tells whether the account is to be disabled.
pub mod Holding
pub mod Exclusive
pub mod Failure
mod Tests
use webmail_engine.Base.{
  ℕ, Bool, true, false, not, ◌&&◌, ◌||◌, List, [], ◌∷◌, Option, none, some, String, ◌==◌, length,
  if◌then◌else◌,
}
use webmail_engine.Base.Int.{ℤ, pos, add64, ◌-ℤ◌, ltb_ℤ}
use webmail_engine.Base.Dict.{Dict, lookup, insert, remove}

pub record PooledSession : Type 0 where
  pub adapter : ℕ
  pub in_use : Bool  -- `inUse` is 0 or 1
  pub last_used : ℤ
  pub created_at : ℤ
  pub healthy : Bool

pub record SessionPoolConfig : Type 0 where
  pub max_idle_timeout : ℤ
  pub keep_alive_every : ℤ
  pub max_session_age : ℤ

pub record ImapSessionPool : Type 0 where
  pub sessions : Dict PooledSession
  pub config : SessionPoolConfig
  pub reuse_count : ℤ
  pub total_connects : ℤ
  pub last_failure : Dict ℤ

-- What the release function that `Acquire` returns does: mark the account's session as idle, or
-- close the adapter of a connection that is not in the pool.
pub data Release : Type 0 where
  returns_session : Release
  closes_adapter : Release

pub data Admission : Type 0 where
  throttled : Admission
  reused : ℕ → Release → Admission
  bursts : Admission  -- connect for one call
  connects : Admission  -- connect for the pool

unfoldable pub new_session_pool : SessionPoolConfig → ImapSessionPool
new_session_pool config = record {
  sessions = [];
  config = config;
  reuse_count = pos 0;
  total_connects = pos 0;
  last_failure = [];
}

-- `time.Since(lastFail) < 10*time.Second`
unfoldable pub failed_recently : ℤ → Option ℤ → Bool
unfolding ◌-ℤ◌
failed_recently now none = false
failed_recently now (some at) = ltb_ℤ (now -ℤ at) (pos 10000000000)

unfoldable pub count_connect : ImapSessionPool → ImapSessionPool
unfolding add64
count_connect p = record p { total_connects = add64 p.total_connects (pos 1) }

unfoldable pub take_idle : ℤ → ImapSessionPool → String → PooledSession → ImapSessionPool
unfolding insert add64
take_idle now p account_id session = record p {
  sessions = insert account_id (record session { in_use = true; last_used = now }) p.sessions;
  reuse_count = add64 p.reuse_count (pos 1);
}

unfoldable pub admit_session :
    ℤ → ImapSessionPool → String → Option PooledSession → ImapSessionPool × Admission
unfolding count_connect take_idle
admit_session now p account_id none = (count_connect p, connects)
admit_session now p account_id (some session) =
    if not session.healthy
    then (count_connect p, connects)
    else if session.in_use
    then (count_connect p, bursts)
    else (take_idle now p account_id session, reused session.adapter returns_session)

unfoldable pub admit : ℤ → ImapSessionPool → String → ImapSessionPool × Admission
unfolding lookup failed_recently admit_session
admit now p account_id =
    if failed_recently now (lookup account_id p.last_failure)
    then (p, throttled)
    else admit_session now p account_id (lookup account_id p.sessions)

-- Both kinds of connection fail alike. The second result tells whether the account is to be
-- disabled: where the server refused the authentication.
unfoldable pub connect_failed : ℤ → ImapSessionPool → String → Bool → ImapSessionPool × Bool
unfolding insert
connect_failed now p account_id is_auth_failure =
    (record p { last_failure = insert account_id now p.last_failure }, is_auth_failure)

abbrev pub is_healthy : Option PooledSession → Bool
is_healthy none = false
is_healthy (some session) = session.healthy

-- A new primary session, unless another call has made one in the meantime: the connection is then
-- closed when it is released.
unfoldable pub connected : ℤ → ImapSessionPool → String → ℕ → ImapSessionPool × Release
unfolding lookup insert add64
connected now p account_id adapter =
    if is_healthy (lookup account_id p.sessions)
    then (record p { reuse_count = add64 p.reuse_count (pos 1) }, closes_adapter)
    else (
      record p {
        sessions =
            insert account_id
              (record {
                adapter = adapter;
                in_use = true;
                last_used = now;
                created_at = now;
                healthy = true;
              })
              p.sessions;
      },
      returns_session,
    )

unfoldable pub release : ℤ → ImapSessionPool → String → ImapSessionPool
unfolding lookup insert
release now p account_id = elim (lookup account_id p.sessions) [
  | none ↦ p
  | some session ↦ record p {
    sessions = insert account_id (record session { in_use = false; last_used = now }) p.sessions;
  }
]

unfoldable pub invalidate : ImapSessionPool → String → ImapSessionPool
unfolding remove
invalidate p account_id = record p { sessions = remove account_id p.sessions }

-- The end of `StartMaintenance`.
unfoldable pub shut_down : ImapSessionPool → ImapSessionPool
shut_down p = record p { sessions = [] }

abbrev pub is_expired : ℤ → SessionPoolConfig → PooledSession → Bool
is_expired now config session =
    not session.healthy
    || (not session.in_use
        && (ltb_ℤ config.max_idle_timeout (now -ℤ session.last_used)
            || ltb_ℤ config.max_session_age (now -ℤ session.created_at)))

-- The sessions that `performCleanup` marks as unhealthy; each of their accounts is then
-- invalidated by a goroutine of its own, as a later step.
unfoldable pub mark_expired : ℤ → SessionPoolConfig → Dict PooledSession → Dict PooledSession
unfolding ◌-ℤ◌
mark_expired now config [] = []
mark_expired now config ((id, session) ∷ rest) =
    let others = mark_expired now config rest in
    (id, if is_expired now config session then record session { healthy = false } else session)
    ∷ others

unfoldable pub perform_cleanup : ℤ → ImapSessionPool → ImapSessionPool
unfolding mark_expired
perform_cleanup now p = record p { sessions = mark_expired now p.config p.sessions }

-- The sessions that `performKeepAlive` pings.
unfoldable pub ping_targets : Dict PooledSession → List (String × ℕ)
ping_targets [] = []
ping_targets ((id, session) ∷ rest) =
    let others = ping_targets rest in
    if session.healthy && not session.in_use then (id, session.adapter) ∷ others else others

-- The first part of `performKeepAlive` takes the idle sessions, as in use.
unfoldable pub take_all_idle : Dict PooledSession → Dict PooledSession
take_all_idle [] = []
take_all_idle ((id, session) ∷ rest) =
    let others = take_all_idle rest in
    (id, if session.healthy then record session { in_use = true } else session) ∷ others

unfoldable pub begin_keep_alive : ImapSessionPool → ImapSessionPool × List (String × ℕ)
unfolding take_all_idle ping_targets
begin_keep_alive p = (record p { sessions = take_all_idle p.sessions }, ping_targets p.sessions)

-- The second part, for one session that was taken: it is found by its adapter, since by then
-- another may stand under the account.
unfoldable pub end_ping : ImapSessionPool → String → ℕ → Bool → ImapSessionPool
unfolding lookup insert
end_ping p account_id adapter answers = elim (lookup account_id p.sessions) [
  | none ↦ p
  | some session ↦
      if session.adapter == adapter
      then record p {
        sessions =
            insert account_id
              (record session { in_use = false; healthy = session.healthy && answers }) p.sessions;
      }
      else p
]
