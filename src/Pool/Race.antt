-- ===== src/Pool/Race.antt =====
-- internal/pool/connection_pool.go: two calls of `Acquire` at the same time.
use webmail_engine.Base.{suc, ◌≡◌, ◌≢◌, List, none, some, String, arith, length, eq_iff}
use webmail_engine.Base.Int.{ℤ, pos, ◌<ℤ◌}
use webmail_engine.Base.Dict.{lookup, insert, length-insert, lookup-insert}
use webmail_engine.Pool.{Connection, ConnectionPool, dials, admit, complete, add_connection}

-- Both calls look for room before either has its connection.
abbrev pub race :
    ℤ → List String → ConnectionPool → String → Connection → Connection → ConnectionPool
race now visited p conn_type first second =
    let p1 = (admit now visited p first.account_id conn_type).0 in
    let p2 = (admit now visited p1 second.account_id conn_type).0 in
    (complete (complete p2 first.account_id (some first)).0 second.account_id (some second)).0

-- `Acquire` does not keep the place that it found. Where two calls both find room and dial, neither
-- changing the pool, in a pool that has room for one connection, and the new IDs differ and are not
-- held, the pool then holds more connections than the maximum.
pub race_exceeds :
    (now : ℤ) (visited : List String) (p : ConnectionPool) (conn_type : String)
    (first second : Connection)
    → p.max_connections ≡ pos (suc (length p.connections))
    → admit now visited p first.account_id conn_type ≡ (p, dials)
    → admit now visited p second.account_id conn_type ≡ (p, dials)
    → lookup first.id p.connections ≡ none
    → lookup second.id p.connections ≡ none
    → first.id ≢ second.id
    → (race now visited p conn_type first second).max_connections
      <ℤ pos (length (race now visited p conn_type first second).connections)
unfolding complete add_connection
race_exceeds now visited p conn_type first second room one two new_one new_two differ = rw (one) (
    rw two (
      rw room (
        ground (
          arith,
          length-insert second.id second (insert first.id first p.connections),
          length-insert first.id first p.connections,
          lookup-insert first.id second.id first p.connections,
          eq_iff first.id second.id,
        ))))
