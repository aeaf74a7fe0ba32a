-- ===== src/Pool/Tests.antt =====
-- The theorems on the connection pool at concrete inputs.
use webmail_engine.Base.{
  ◌≢◌, refl, true, false, List, [], ◌∷◌, none, some, String, arith, length, eq_iff,
}
use webmail_engine.Base.Int.{pos, ◌<ℤ◌, ◌-ℤ◌}
use webmail_engine.Base.Dict.{lookup, insert, remove}
use webmail_engine.Pool.{
  Connection, ConnectionPool, new_connection_pool, new_connection, ids_of, find_idle, reuse, admit,
  cleanup_idle, release, close_account, close_all, close_held, complete, add_connection,
}
use webmail_engine.Pool.Capacity.{IsWithin}
use webmail_engine.Pool.History.{Call, acquires, releases, closes, cleans, run, run_pool-IsWithin}
use webmail_engine.Pool.Interleaving.{
  Section, looks, looks_again, connects, cleans as sweeps, first_look, second_look,
  releases as returns, interleave, section_step, interleave-close_account,
}
use webmail_engine.Pool.Race.{race, race_exceeds}

abbrev mail : Connection
mail = record {
  id = "m1";
  account_id = "ann";
  conn_type = "imap";
  created_at = pos 0;
  last_used_at = pos 5;
  in_use = false;
  error_count = pos 0;
}

abbrev other_mail : Connection
other_mail = record mail { id = "m2"; account_id = "bob"; in_use = true }

abbrev third_mail : Connection
third_mail = record mail { id = "m3"; account_id = "carl"; in_use = true }

abbrev one_idle : ConnectionPool
one_idle = record {
  connections = ("m1", mail) ∷ [];
  account_connections = ("ann", "m1" ∷ []) ∷ [];
  max_connections = pos 1;
  idle_timeout = pos 100;
  metrics = record {
    total_created = pos 1;
    total_closed = pos 0;
    active_count = pos 0;
    idle_count = pos 1;
    wait_count = pos 0;
    error_count = pos 0;
    last_metric_time = pos 0;
  };
}

abbrev one_place : ConnectionPool
one_place = record one_idle { max_connections = pos 2 }

abbrev a_day : List Call
a_day =
    acquires (pos 1) [] "ann" "imap" (some mail)
    ∷ releases (pos 2) "m1"
    ∷ acquires (pos 3) [] "ann" "imap" none
    ∷ cleans (pos 900) ("m1" ∷ [])
    ∷ closes "m1"
    ∷ []

run_pool-IsWithin_example : IsWithin (run (new_connection_pool (pos 0) (pos 1) (pos 100)) a_day)
run_pool-IsWithin_example = run_pool-IsWithin (pos 0) (pos 1) (pos 100) a_day (omega arith)

abbrev two_at_once : List Section
two_at_once =
    looks (pos 1) "ann" "imap"
    ∷ looks (pos 2) "bob" "imap"
    ∷ connects (pos 3) "bob" "imap" "m2"
    ∷ connects (pos 4) "ann" "imap" "m1"
    ∷ returns (pos 5) "m2"
    ∷ sweeps (pos 6) ("m1" ∷ [])
    ∷ looks_again (pos 7) "carl" "imap"
    ∷ []

interleave-close_account_example : ◌≢◌ {A = String} "bob" "ann"
unfolding section_step interleave new_connection_pool new_connection first_look second_look
    cleanup_idle reuse find_idle ids_of complete add_connection release close_account close_all
    close_held lookup insert remove
interleave-close_account_example =
    interleave-close_account (pos 0) (pos 9) (pos 100) two_at_once "ann" "m2"
      (record (new_connection (pos 3) "m2" "bob" "imap") { in_use = false; last_used_at = pos 5 })
      refl

race_exceeds_example :
    (race (pos 9) [] one_place "imap" other_mail third_mail).max_connections
    <ℤ pos (length (race (pos 9) [] one_place "imap" other_mail third_mail).connections)
unfolding admit reuse find_idle ids_of lookup ◌-ℤ◌
race_exceeds_example =
    race_exceeds (pos 9) [] one_place "imap" other_mail third_mail refl refl refl refl refl
      (ground (arith, eq_iff "m2" "m3"))
