-- ===== src/Session/Tests.antt =====
-- The theorems on the session pool at concrete inputs.
use webmail_engine.Base.{◌≡◌, refl, true, false, List, [], ◌∷◌, none, arith, eq_iff}
use webmail_engine.Base.Int.{pos, ◌-ℤ◌}
use webmail_engine.Base.Dict.{lookup, insert, remove}
use webmail_engine.Session.{
  PooledSession, SessionPoolConfig, ImapSessionPool, new_session_pool, admit, admit_session,
  connected, connect_failed, release, failed_recently, throttled,
}
use webmail_engine.Session.Holding.{
  Event, admits, arrives, returns, event_step, events, lend, lend_new,
}
use webmail_engine.Session.Exclusive.{events-reused}
use webmail_engine.Session.Failure.{
  connect_failed_lem, acquires, connects_new, gives_back, is_invalidated, callers, release_stale,
}

abbrev minutes : SessionPoolConfig
minutes = record {
  max_idle_timeout = pos 900;
  keep_alive_every = pos 240;
  max_session_age = pos 1800;
}

abbrev with_seven : ImapSessionPool
with_seven = record {
  sessions =
      (
        "ann",
        record {
          adapter = 7;
          in_use = true;
          last_used = pos 1;
          created_at = pos 1;
          healthy = true;
        },
      )
      ∷ [];
  config = minutes;
  reuse_count = pos 0;
  total_connects = pos 1;
  last_failure = [];
}

connect_failed_lem_example :
    (admit (pos 9) (connect_failed (pos 3) with_seven "ann" true).0 "ann"
      ≡ ((connect_failed (pos 3) with_seven "ann" true).0, throttled))
    × ((admit (pos 9) (connect_failed (pos 3) with_seven "ann" true).0 "bob").1
        ≡ (admit (pos 9) with_seven "bob").1)
unfolding ◌-ℤ◌
connect_failed_lem_example =
    connect_failed_lem with_seven "ann" "bob" (pos 3) (pos 9) true
      (ground (arith, eq_iff "bob" "ann"))

abbrev ann_idle : PooledSession
ann_idle = record {
  adapter = 7;
  in_use = false;
  last_used = pos 1;
  created_at = pos 1;
  healthy = true;
}

abbrev idle_seven : ImapSessionPool
idle_seven = record with_seven { sessions = ("ann", ann_idle) ∷ [] }

release_stale_example :
    (callers
      (idle_seven, [])
      (acquires 1 (pos 2) "ann"
        ∷ is_invalidated "ann"
        ∷ acquires 2 (pos 3) "ann"
        ∷ connects_new 2 (pos 4) "ann" 8
        ∷ gives_back 1 (pos 5) "ann"
        ∷ acquires 3 (pos 6) "ann"
        ∷ [])).1
    ≡ (3, 8) ∷ (2, 8) ∷ []
unfolding lookup
release_stale_example =
    release_stale idle_seven "ann" ann_idle 8 (pos 2) (pos 3) (pos 4) (pos 5) (pos 6) refl refl refl
      refl

-- The session is made, given back, and taken again.
abbrev taken_again : List Event
taken_again = admits (pos 1) "ann" ∷ arrives (pos 3) "ann" 7 ∷ returns (pos 4) "ann" ∷ []

events-reused_example : lookup "ann" (events (new_session_pool minutes, []) taken_again).1 ≡ none
unfolding events event_step new_session_pool admit admit_session connected release failed_recently
    lookup insert remove lend_new lend
events-reused_example = events-reused (pos 5) minutes taken_again "ann" 7 refl
