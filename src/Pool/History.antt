-- ===== src/Pool/History.antt =====
-- Every history of calls of the connection pool, one after the other.
use webmail_engine.Base.{refl, List, [], ◌∷◌, Option, String, arith, Option-cases, inl, inr, false}
use webmail_engine.Base.Int.{ℤ, pos, ◌≤ℤ◌}
use webmail_engine.Base.Dict.{lookup, insert-IsDict}
use webmail_engine.Pool.{
  Connection, ConnectionPool, new_connection_pool, acquire, release, close, close_account,
  close_all, cleanup_idle, ids_of, drop_connection,
}
use webmail_engine.Pool.Shrinking.{
  cleanup_idle-Shrinks, close_all-Shrinks, drop_connection-Shrinks, length-insert_held,
}
use webmail_engine.Pool.Capacity.{IsWithin, Shrinks-IsWithin, acquire-IsWithin}

pub data Call : Type 0 where
  acquires :
      (now : ℤ) (visited : List String) (account_id conn_type : String) (dialed : Option Connection)
      → Call
  releases : (now : ℤ) (id : String) → Call
  closes closes_account : String → Call
  cleans : (now : ℤ) (visited : List String) → Call

unfoldable pub step : ConnectionPool → Call → ConnectionPool
step p (acquires now visited account_id conn_type dialed) =
    (acquire now visited p account_id conn_type dialed).0
step p (releases now id) = release now p id
step p (closes id) = close p id
step p (closes_account account_id) = close_account p account_id
step p (cleans now visited) = cleanup_idle now p visited

pub run : ConnectionPool → List Call → ConnectionPool
run p [] = p
run p (c ∷ cs) = run (step p c) cs

release-IsWithin :
    (now : ℤ) (p : ConnectionPool) (id : String) → IsWithin p → IsWithin (release now p id)
unfolding release
release-IsWithin now p id h = elim (Option-cases (lookup id p.connections)) [
  | inl missing ↦ rw (missing, release) h
  | inr (conn, held) ↦
      (let idle = record conn { in_use = false; last_used_at = now } in
        rw (held, release)
          (record {
            dict = insert-IsDict id idle p.connections h.dict;
            bound = omega (arith, length-insert_held id idle p.connections (rw held refl), h.bound);
          }))
]

close-IsWithin : (p : ConnectionPool) (id : String) → IsWithin p → IsWithin (close p id)
unfolding close
close-IsWithin p id h = elim (Option-cases (lookup id p.connections)) [
  | inl missing ↦ rw (missing, close) h
  | inr (conn, held) ↦
      rw (held, close)
        (Shrinks-IsWithin p (drop_connection p id conn) (drop_connection-Shrinks p id conn h.dict)
          h)
]

close_account-IsWithin :
    (p : ConnectionPool) (account_id : String) → IsWithin p → IsWithin (close_account p account_id)
unfolding close_account
close_account-IsWithin p account_id h =
    let closed = close_all p (ids_of p account_id) in
    let closed-IsWithin =
      Shrinks-IsWithin p closed (close_all-Shrinks (ids_of p account_id) p h.dict) h in
    record { dict = closed-IsWithin.dict; bound = closed-IsWithin.bound }

step-IsWithin : (p : ConnectionPool) (c : Call) → IsWithin p → IsWithin (step p c)
unfolding step
step-IsWithin p (acquires now visited account_id conn_type dialed) h =
    acquire-IsWithin now visited p account_id conn_type dialed h
step-IsWithin p (releases now id) h = release-IsWithin now p id h
step-IsWithin p (closes id) h = close-IsWithin p id h
step-IsWithin p (closes_account account_id) h = close_account-IsWithin p account_id h
step-IsWithin p (cleans now visited) h =
    Shrinks-IsWithin p (cleanup_idle now p visited) (cleanup_idle-Shrinks now visited p h.dict) h

run-IsWithin : (p : ConnectionPool) (cs : List Call) → IsWithin p → IsWithin (run p cs)
unfolding run
run-IsWithin p [] h = h
run-IsWithin p (c ∷ cs) h = run-IsWithin (step p c) cs (step-IsWithin p c h)

-- Calls of a new pool that come one after the other, each `Acquire` without another call in
-- between, never hold more connections than the maximum, where that is not negative.
pub run_pool-IsWithin :
    (now max_connections idle_timeout : ℤ) (cs : List Call)
    → pos 0 ≤ℤ max_connections
    → IsWithin (run (new_connection_pool now max_connections idle_timeout) cs)
unfolding new_connection_pool
run_pool-IsWithin now max_connections idle_timeout cs h =
    run-IsWithin (new_connection_pool now max_connections idle_timeout) cs
      (record { dict = tt; bound = h })
