-- ===== src/Pool/Reuse.antt =====
-- internal/pool/connection_pool.go: which connections `Acquire` hands out again.
use webmail_engine.Base.{
  ◌≡◌, ◌≢◌, refl, ◌∙◌, sym, true, false, List, [], ◌∷◌, none, some, String, Option-cases,
  Bool-cases, inl, inr, if_true, if_false,
}
use webmail_engine.Base.Int.{ℤ, pos, add64, sub64}
use webmail_engine.Base.Dict.{lookup, insert, lookup-insert_self, lookup-insert_ne}
use webmail_engine.Pool.{
  Connection, ConnectionPool, Admission, refused, reused, dials, is_usable, is_full, ids_of,
  find_idle, use_connection, reuse, admit, release, cleanup_idle, count_wait,
}
use webmail_engine.Pool.Shrinking.{find_idle_lem, find_idle-cons, find_idle-cons_missing}

-- What a connection is before it is handed out again, and after.
pub record Reuses (now : ℤ) (p q : ConnectionPool) (conn_type : String) (used : Connection)
    : Type 0 where
  pub id : String
  pub before : Connection
  pub held : lookup id p.connections ≡ some before
  pub usable : is_usable now p conn_type before ≡ true
  pub after : lookup id q.connections ≡ some used
  pub busy : used.in_use ≡ true
  pub touched : used.last_used_at ≡ now
  pub frame :
      (other : String) → other ≢ id → lookup other q.connections ≡ lookup other p.connections

-- Of the connections under these IDs none is usable.
abbrev pub NoneUsable : ℤ → ConnectionPool → String → List String → Type 0
NoneUsable now p conn_type [] = Unit {0}
NoneUsable now p conn_type (id ∷ ids) =
    ((conn : Connection)
      → lookup id p.connections ≡ some conn
      → is_usable now p conn_type conn ≡ false)
    × NoneUsable now p conn_type ids

find_idle-NoneUsable :
    (now : ℤ) (p : ConnectionPool) (conn_type : String) (ids : List String)
    → find_idle now p conn_type ids ≡ none
    → NoneUsable now p conn_type ids
find_idle-NoneUsable now p conn_type [] e = tt
find_idle-NoneUsable now p conn_type (id ∷ ids) e = elim (Option-cases (lookup id p.connections)) [
  | inl missing ↦ (
    λ conn held. absurd (cc),
    find_idle-NoneUsable now p conn_type ids
        (sym (find_idle-cons_missing now p conn_type id ids missing) ∙ e),
  )
  | inr (c, held) ↦
      (let test = find_idle-cons now p conn_type id ids c held in
        elim (Bool-cases (is_usable now p conn_type c)) [
          | inl usable ↦ absurd (
              let found =
                if_true (is_usable now p conn_type c) (some (id, c)) (find_idle now p conn_type ids)
                  usable in
              cc)
          | inr busy ↦ (
            λ conn held'.
                let same : some c ≡ some conn = cc in
                let same' : c ≡ conn = cc in rw (← same') busy,
            find_idle-NoneUsable now p conn_type ids (
                sym (
                  test
                  ∙ if_false (is_usable now p conn_type c) (some (id, c))
                      (find_idle now p conn_type ids) busy)
                ∙ e),
          )
        ])
]

-- The outcomes of the search with room in the pool.
abbrev pub ReuseOutcome : ℤ → ConnectionPool → String → String → ConnectionPool × Admission → Type 0
ReuseOutcome now p account_id conn_type (q, refused) = ⊥
ReuseOutcome now p account_id conn_type (q, reused used) = Reuses now p q conn_type used
ReuseOutcome now p account_id conn_type (q, dials) =
    (q ≡ p) × NoneUsable now p conn_type (ids_of p account_id)

use_connection-Reuses :
    (now : ℤ) (p : ConnectionPool) (conn_type id : String) (conn : Connection)
    → lookup id p.connections ≡ some conn
    → is_usable now p conn_type conn ≡ true
    → Reuses now p (use_connection now p id conn).0 conn_type (use_connection now p id conn).1
unfolding use_connection
use_connection-Reuses now p conn_type id conn held usable =
    let used = record conn { in_use = true; last_used_at = now } in
    record {
      id = id;
      before = conn;
      held = held;
      usable = usable;
      after = lookup-insert_self id used p.connections;
      busy = refl;
      touched = refl;
      frame = λ other n. lookup-insert_ne id other used p.connections n;
    }

-- With room in the pool, `Acquire` either hands out a connection that was idle, of the type that is
-- asked for and used more recently than the timeout, marks it as in use and changes no other; or it
-- dials, changes nothing, and none of the account's connections is such.
pub reuse_lem :
    (now : ℤ) (p : ConnectionPool) (account_id conn_type : String)
    → ReuseOutcome now p account_id conn_type (reuse now p account_id conn_type)
unfolding reuse
reuse_lem now p account_id conn_type =
    elim (Option-cases (find_idle now p conn_type (ids_of p account_id))) [
      | inl e ↦ rw (e, reuse) (refl, find_idle-NoneUsable now p conn_type (ids_of p account_id) e)
      | inr ((id, conn), e) ↦
          (let (held, usable) = find_idle_lem now p conn_type (ids_of p account_id) id conn e in
            rw (e, reuse) (use_connection-Reuses now p conn_type id conn held usable))
    ]

-- A full pool in which the cleanup closes nothing refuses every `Acquire`, one for an account with
-- an idle connection included.
pub admit_full :
    (now : ℤ) (visited : List String) (p : ConnectionPool) (account_id conn_type : String)
    → is_full p ≡ true
    → cleanup_idle now (count_wait p) visited ≡ count_wait p
    → (admit now visited p account_id conn_type).1 ≡ refused
unfolding admit count_wait
admit_full now visited p account_id conn_type full kept =
    rw (full, admit) (rw (kept, admit) (rw full refl))

-- A held connection that is handed out again and then released takes one from the count of active
-- connections and adds one to that of idle ones.
pub reuse-release_counts :
    (now later : ℤ) (p : ConnectionPool) (id : String) (conn : Connection)
    → lookup id p.connections ≡ some conn
    → ((release later (use_connection now p id conn).0 id).metrics ≡ record (p.metrics) {
      active_count = sub64 p.metrics.active_count (pos 1);
      idle_count = add64 p.metrics.idle_count (pos 1);
    })
      × (lookup id (release later (use_connection now p id conn).0 id).connections
          ≡ some (record conn { in_use = false; last_used_at = later }))
unfolding use_connection release
reuse-release_counts now later p id conn held =
    let used = record conn { in_use = true; last_used_at = now } in
    let back = lookup-insert_self id used p.connections in
    (
      rw (back, release) refl,
      rw (back, release)
          (lookup-insert_self id (record conn { in_use = false; last_used_at = later })
            (insert id used p.connections)),
    )
