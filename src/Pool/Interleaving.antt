-- ===== src/Pool/Interleaving.antt =====
-- internal/pool/connection_pool.go: every interleaving of calls. The parts of `Acquire` between
-- which the mutex is free are steps of their own, so that calls may stand between them.
use webmail_engine.Base.{
  ◌≡◌, ◌≢◌, refl, ◌∙◌, ap, sym, true, false, List, [], ◌∷◌, ◌++◌, Option, none, some, String, arith,
  Option-cases, Bool-cases, str_eq, eq_iff, inl, inr, if_split, if_true, if_false, if◌then◌else◌,
}
use webmail_engine.Base.Int.{ℤ}
use webmail_engine.Base.Dict.{lookup, lookup-insert, lookup-remove_ne}
use webmail_engine.Pool.{
  Connection, ConnectionPool, new_connection_pool, new_connection, ids_of, drop_connection,
  cleanup_idle, is_timed_out, is_full, find_idle, use_connection, reuse, admit, count_wait,
  count_error, add_connection, complete, release, close, close_all, close_account,
}
use webmail_engine.Pool.Shrinking.{find_idle_lem}
use webmail_engine.Pool.Listing.{is_in, Listed, drop_connection-Listed, touch-Listed, is_in-append}
use webmail_engine.Pool.Accounts.{
  close_account_lem, lookup-close_all, close_all-account_connections,
}

-- `Acquire` up to the first `Unlock`: with room it goes on to the search for an idle connection.
unfoldable pub first_look : ℤ → ConnectionPool → String → String → ConnectionPool
first_look now p account_id conn_type =
    if is_full p then count_wait p else (reuse now p account_id conn_type).0

-- `Acquire` from the second `Lock`, after its cleanup.
unfoldable pub second_look : ℤ → ConnectionPool → String → String → ConnectionPool
second_look now p account_id conn_type =
    if is_full p then count_error p else (reuse now p account_id conn_type).0

-- With no other call in between they are `admit`.
admit-looks :
    (now : ℤ) (visited : List String) (p : ConnectionPool) (account_id conn_type : String)
    → (admit now visited p account_id conn_type).0 ≡ (
        if is_full p
        then second_look now
            (cleanup_idle now (first_look now p account_id conn_type) visited)
            account_id
            conn_type
        else first_look now p account_id conn_type)
unfolding admit first_look second_look
admit-looks now visited p account_id conn_type = elim (Bool-cases (is_full p)) [
  | inl full ↦ elim (Bool-cases (is_full (cleanup_idle now (count_wait p) visited))) [
    | inl still ↦ rw (full, admit) (rw (still) refl)
    | inr room ↦ rw (full, admit) (rw (room) refl)
  ]
  | inr room ↦ rw (room, admit) refl
]

-- The parts of calls that no other call interrupts. `cleans` with one ID is one iteration of the loop of
-- `cleanupIdle`, which `Acquire` runs without the mutex.
pub data Section : Type 0 where
  looks : (now : ℤ) (account_id conn_type : String) → Section
  looks_again : (now : ℤ) (account_id conn_type : String) → Section
  -- The dial is over: `id` is that of the new connection.
  connects : (now : ℤ) (account_id conn_type id : String) → Section
  fails : String → Section
  releases : (now : ℤ) (id : String) → Section
  closes closes_account : String → Section
  cleans : (now : ℤ) (visited : List String) → Section

unfoldable pub section_step : ConnectionPool → Section → ConnectionPool
section_step p (looks now account_id conn_type) = first_look now p account_id conn_type
section_step p (looks_again now account_id conn_type) = second_look now p account_id conn_type
section_step p (connects now account_id conn_type id) =
    (complete p account_id (some (new_connection now id account_id conn_type))).0
section_step p (fails account_id) = (complete p account_id none).0
section_step p (releases now id) = release now p id
section_step p (closes id) = close p id
section_step p (closes_account account_id) = close_account p account_id
section_step p (cleans now visited) = cleanup_idle now p visited

unfoldable pub interleave : ConnectionPool → List Section → ConnectionPool
interleave p [] = p
interleave p (s ∷ ss) = interleave (section_step p s) ss

cleanup_idle-Listed :
    (now : ℤ) (ids : List String) (p : ConnectionPool) → Listed p → Listed (cleanup_idle now p ids)
unfolding cleanup_idle
cleanup_idle-Listed now [] p h = h
cleanup_idle-Listed now (id ∷ ids) p h = elim (Option-cases (lookup id p.connections)) [
  | inl missing ↦ rw (missing, cleanup_idle) (cleanup_idle-Listed now ids p h)
  | inr (conn, held) ↦ elim (Bool-cases (is_timed_out now p conn)) [
    | inl old ↦
        rw (held, old, cleanup_idle)
          (cleanup_idle-Listed now ids (drop_connection p id conn)
            (drop_connection-Listed p id conn h))
    | inr young ↦ rw (held, young, cleanup_idle) (cleanup_idle-Listed now ids p h)
  ]
]

reuse-Listed :
    (now : ℤ) (p : ConnectionPool) (account_id conn_type : String)
    → Listed p
    → Listed (reuse now p account_id conn_type).0
unfolding reuse use_connection ids_of
reuse-Listed now p account_id conn_type h =
    elim (Option-cases (find_idle now p conn_type (ids_of p account_id))) [
      | inl e ↦ rw (e, reuse) h
      | inr ((id, conn), e) ↦
          (let held = (find_idle_lem now p conn_type (ids_of p account_id) id conn e).0 in
            rw (e, reuse)
              (touch-Listed p id conn (record conn { in_use = true; last_used_at = now }) h held
                refl))
    ]

count_wait-Listed : (p : ConnectionPool) → Listed p → Listed (count_wait p)
unfolding count_wait ids_of
count_wait-Listed p h = h

count_error-Listed : (p : ConnectionPool) → Listed p → Listed (count_error p)
unfolding count_error ids_of
count_error-Listed p h = h

first_look-Listed :
    (now : ℤ) (p : ConnectionPool) (account_id conn_type : String)
    → Listed p
    → Listed (first_look now p account_id conn_type)
unfolding first_look
first_look-Listed now p account_id conn_type h =
    if_split Listed (is_full p) (λ _. count_wait-Listed p h)
      (λ _. reuse-Listed now p account_id conn_type h)

second_look-Listed :
    (now : ℤ) (p : ConnectionPool) (account_id conn_type : String)
    → Listed p
    → Listed (second_look now p account_id conn_type)
unfolding second_look
second_look-Listed now p account_id conn_type h =
    if_split Listed (is_full p) (λ _. count_error-Listed p h)
      (λ _. reuse-Listed now p account_id conn_type h)

ids_of-add :
    (p : ConnectionPool) (a b : String) (conn : Connection)
    → ids_of (add_connection p a conn) b
      ≡ (if str_eq a b then ids_of p a ++ conn.id ∷ [] else ids_of p b)
unfolding ids_of add_connection
ids_of-add p a b conn =
    let more = ids_of p a ++ conn.id ∷ [] in
    let at = lookup-insert a b more p.account_connections in
    elim (Bool-cases (str_eq a b)) [
      | inl same ↦ rw (at, same, ids_of) refl
      | inr other ↦ rw (at, other, ids_of) refl
    ]

add_connection-Listed :
    (p : ConnectionPool) (conn : Connection)
    → Listed p
    → Listed (add_connection p conn.account_id conn)
unfolding add_connection
add_connection-Listed p conn h k c e = elim (Bool-cases (str_eq conn.id k)) [
  | inl here ↦
      (let now_some : some conn ≡ some c =
          sym (
            lookup-insert conn.id k conn p.connections
            ∙ if_true (str_eq conn.id k) (some conn) (lookup k p.connections) here)
          ∙ e in
        let is_c : conn ≡ c = cc in
        rw (← is_c) (
          ground (
            arith,
            ids_of-add p conn.account_id conn.account_id conn,
            eq_iff conn.account_id conn.account_id,
            is_in-append k conn.id (ids_of p conn.account_id),
          )))
  | inr other ↦
      (let held =
          sym (
            lookup-insert conn.id k conn p.connections
            ∙ if_false (str_eq conn.id k) (some conn) (lookup k p.connections) other)
          ∙ e in
        ground (
          arith,
          h k c held,
          ids_of-add p conn.account_id c.account_id conn,
          eq_iff conn.account_id c.account_id,
          is_in-append k conn.id (ids_of p conn.account_id),
        ))
]

release-Listed : (now : ℤ) (p : ConnectionPool) (id : String) → Listed p → Listed (release now p id)
unfolding release ids_of
release-Listed now p id h = elim (Option-cases (lookup id p.connections)) [
  | inl missing ↦ rw (missing, release) h
  | inr (conn, held) ↦
      rw (held, release)
        (touch-Listed p id conn (record conn { in_use = false; last_used_at = now }) h held refl)
]

close-Listed : (p : ConnectionPool) (id : String) → Listed p → Listed (close p id)
unfolding close
close-Listed p id h = elim (Option-cases (lookup id p.connections)) [
  | inl missing ↦ rw (missing, close) h
  | inr (conn, held) ↦ rw (held, close) (drop_connection-Listed p id conn h)
]

ids_of-close_account :
    (p : ConnectionPool) (a b : String) → b ≢ a → ids_of (close_account p a) b ≡ ids_of p b
unfolding ids_of close_account
ids_of-close_account p a b n =
    let same = close_all-account_connections (ids_of p a) p in
    ap (λ (o : Option (List String)). elim o as (λ _. List String) [ none ↦ [] | some ids ↦ ids ])
      (lookup-remove_ne a b (close_all p (ids_of p a)).account_connections n ∙ ap (lookup b) same)

close_account-kept :
    (p : ConnectionPool) (a k : String) (c : Connection)
    → lookup k (close_account p a).connections ≡ some c
    → lookup k p.connections ≡ some c
unfolding close_account
close_account-kept p a k c e = elim (Bool-cases (is_in k (ids_of p a))) [
  | inl listed ↦ absurd (
      let gone =
        lookup-close_all (ids_of p a) p k
        ∙ if_true (is_in k (ids_of p a)) none (lookup k p.connections) listed in
      cc)
  | inr free ↦
      sym (
        lookup-close_all (ids_of p a) p k
        ∙ if_false (is_in k (ids_of p a)) none (lookup k p.connections) free)
      ∙ e
]

close_account-Listed : (p : ConnectionPool) (a : String) → Listed p → Listed (close_account p a)
close_account-Listed p a h k c e =
    rw (ids_of-close_account p a c.account_id ((close_account_lem p a h).0 k c e))
      (h k c (close_account-kept p a k c e))

section_step-Listed : (p : ConnectionPool) (s : Section) → Listed p → Listed (section_step p s)
unfolding section_step complete new_connection
section_step-Listed p (looks now account_id conn_type) h =
    first_look-Listed now p account_id conn_type h
section_step-Listed p (looks_again now account_id conn_type) h =
    second_look-Listed now p account_id conn_type h
section_step-Listed p (connects now account_id conn_type id) h =
    add_connection-Listed p (new_connection now id account_id conn_type) h
section_step-Listed p (fails account_id) h = count_error-Listed p h
section_step-Listed p (releases now id) h = release-Listed now p id h
section_step-Listed p (closes id) h = close-Listed p id h
section_step-Listed p (closes_account account_id) h = close_account-Listed p account_id h
section_step-Listed p (cleans now visited) h = cleanup_idle-Listed now visited p h

interleave-Listed : (p : ConnectionPool) (ss : List Section) → Listed p → Listed (interleave p ss)
unfolding interleave
interleave-Listed p [] h = h
interleave-Listed p (s ∷ ss) h = interleave-Listed (section_step p s) ss (section_step-Listed p s h)

-- `CloseAccount` leaves no connection of the account in a new pool after every interleaving of calls,
-- in which the parts of `Acquire` between which the mutex is free and the iterations of the loop of
-- `cleanupIdle` are steps of their own. That another call comes within an iteration, which `Acquire` runs
-- without the mutex, is excluded.
pub interleave-close_account :
    (now max_connections idle_timeout : ℤ) (ss : List Section) (a k : String) (c : Connection)
    → lookup k
        (close_account
          (interleave (new_connection_pool now max_connections idle_timeout) ss)
          a).connections
      ≡ some c
    → c.account_id ≢ a
unfolding new_connection_pool lookup
interleave-close_account now max_connections idle_timeout ss a k c e =
    let p = new_connection_pool now max_connections idle_timeout in
    (close_account_lem (interleave p ss) a (interleave-Listed p ss (λ j d f. absurd (cc)))).0 k c e
