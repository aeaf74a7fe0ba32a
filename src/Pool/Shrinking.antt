-- ===== src/Pool/Shrinking.antt =====
-- internal/pool/connection_pool.go: the search for an idle connection, and what makes the pool no larger.
use webmail_engine.Base.{
  ◌≤◌, ◌≡◌, refl, ◌∙◌, ap, subst, true, inl, inr, List, [], ◌∷◌, Option, none, some, String, arith,
  length, Bool-cases, Option-cases, if_true, if_false, sym, if◌then◌else◌,
}
use webmail_engine.Base.Int.{ℤ, ◌-ℤ◌}
use webmail_engine.Base.Dict.{
  Dict, lookup, insert, remove, has_key, IsDict, insert-IsDict, remove-IsDict, length-insert,
  length-remove,
}
use webmail_engine.Pool.{
  Connection, ConnectionPool, is_usable, is_timed_out, drop_connection, cleanup_idle, find_idle,
  use_connection, close_all, close_held,
}

pub find_idle-cons :
    (now : ℤ) (p : ConnectionPool) (conn_type id : String) (ids : List String) (conn : Connection)
    → lookup id p.connections ≡ some conn
    → find_idle now p conn_type (id ∷ ids)
      ≡ (if is_usable now p conn_type conn then some (id, conn) else find_idle now p conn_type ids)
unfolding find_idle ◌-ℤ◌
find_idle-cons now p conn_type id ids conn held = rw (held, find_idle) refl

pub find_idle-cons_missing :
    (now : ℤ) (p : ConnectionPool) (conn_type id : String) (ids : List String)
    → lookup id p.connections ≡ none
    → find_idle now p conn_type (id ∷ ids) ≡ find_idle now p conn_type ids
unfolding find_idle
find_idle-cons_missing now p conn_type id ids missing = rw (missing, find_idle) refl

pair_of : String × Connection → Option (String × Connection) → String × Connection
pair_of r none = r
pair_of r (some q) = q

-- Two answers of the search that agree have equal parts.
same_pair :
    (q r : String × Connection)
    → ◌≡◌ {A = Option (String × Connection)} (some q) (some r)
    → ◌≡◌ {A = String × Connection} q r
unfolding pair_of
same_pair q r e = ap (λ o. pair_of q o) e

-- What `find_idle` returns is held under its ID, of the type, idle, and not timed out.
pub find_idle_lem :
    (now : ℤ) (p : ConnectionPool) (conn_type : String) (ids : List String) (id : String)
    (conn : Connection)
    → find_idle now p conn_type ids ≡ some (id, conn)
    → (lookup id p.connections ≡ some conn) × (is_usable now p conn_type conn ≡ true)
find_idle_lem now p conn_type [] id conn e = absurd (unfold find_idle in cc)
find_idle_lem now p conn_type (i ∷ ids) id conn e = elim (Option-cases (lookup i p.connections)) [
  | inl missing ↦
      find_idle_lem now p conn_type ids id conn
        (sym (find_idle-cons_missing now p conn_type i ids missing) ∙ e)
  | inr (c, held) ↦ elim (Bool-cases (is_usable now p conn_type c)) [
    | inl usable ↦
        (let found =
            same_pair (i, c) (id, conn)
              (sym (
                  find_idle-cons now p conn_type i ids c held
                  ∙ if_true (is_usable now p conn_type c) (some (i, c))
                      (find_idle now p conn_type ids) usable)
                ∙ e) in
          subst
            (λ (r : String × Connection).
              (lookup r.0 p.connections ≡ some r.1) × (is_usable now p conn_type r.1 ≡ true))
            found (held, usable))
    | inr busy ↦ find_idle_lem now p conn_type ids id conn (
        sym (
          find_idle-cons now p conn_type i ids c held
          ∙ if_false (is_usable now p conn_type c) (some (i, c)) (find_idle now p conn_type ids)
              busy)
        ∙ e)
  ]
]

-- A pool with at most as many connections, of the same size.
pub record Shrinks (p q : ConnectionPool) : Type 0 where
  pub dict : IsDict q.connections
  pub fewer : length q.connections ≤ length p.connections
  pub same_max : q.max_connections ≡ p.max_connections

pub same-Shrinks : (p : ConnectionPool) → IsDict p.connections → Shrinks p p
same-Shrinks p d = record { dict = d; fewer = omega arith; same_max = refl }

pub chain-Shrinks : (p q r : ConnectionPool) → Shrinks p q → Shrinks q r → Shrinks p r
chain-Shrinks p q r a b = record {
  dict = b.dict;
  fewer = omega (arith, a.fewer, b.fewer);
  same_max = b.same_max ∙ a.same_max;
}

pub length-remove-le :
    (id : String) (d : Dict Connection) → IsDict d → length (remove id d) ≤ length d
length-remove-le id d h = ground (arith, length-remove id d h)

pub drop_connection-Shrinks :
    (p : ConnectionPool) (id : String) (conn : Connection)
    → IsDict p.connections
    → Shrinks p (drop_connection p id conn)
unfolding drop_connection
drop_connection-Shrinks p id conn d = record {
  dict = remove-IsDict id p.connections d;
  fewer = length-remove-le id p.connections d;
  same_max = refl;
}

pub cleanup_idle-Shrinks :
    (now : ℤ) (ids : List String) (p : ConnectionPool)
    → IsDict p.connections
    → Shrinks p (cleanup_idle now p ids)
unfolding cleanup_idle
cleanup_idle-Shrinks now [] p d = same-Shrinks p d
cleanup_idle-Shrinks now (id ∷ ids) p d = elim (Option-cases (lookup id p.connections)) [
  | inl missing ↦ rw (missing, cleanup_idle) (cleanup_idle-Shrinks now ids p d)
  | inr (conn, held) ↦ elim (Bool-cases (is_timed_out now p conn)) [
    | inl old ↦
        (let q = drop_connection p id conn in
          let drops = drop_connection-Shrinks p id conn d in
          rw (held, old, cleanup_idle)
            (chain-Shrinks p q (cleanup_idle now q ids) drops
              (cleanup_idle-Shrinks now ids q drops.dict)))
    | inr young ↦ rw (held, young, cleanup_idle) (cleanup_idle-Shrinks now ids p d)
  ]
]

pub close_all-Shrinks :
    (ids : List String) (p : ConnectionPool) → IsDict p.connections → Shrinks p (close_all p ids)
unfolding close_all close_held
close_all-Shrinks [] p d = same-Shrinks p d
close_all-Shrinks (id ∷ ids) p d = elim (Option-cases (lookup id p.connections)) [
  | inl missing ↦ rw (missing, close_all) (close_all-Shrinks ids p d)
  | inr (conn, held) ↦
      (let q = close_held p id in
        let drops : Shrinks p q = record {
          dict = remove-IsDict id p.connections d;
          fewer = length-remove-le id p.connections d;
          same_max = refl;
        } in
        rw (held, close_all)
          (chain-Shrinks p q (close_all q ids) drops (close_all-Shrinks ids q drops.dict)))
]

pub length-insert_held :
    (id : String) (c : Connection) (d : Dict Connection)
    → has_key id d ≡ true
    → length (insert id c d) ≡ length d
length-insert_held id c d h = ground (arith, length-insert id c d)

pub use_connection-Shrinks :
    (now : ℤ) (p : ConnectionPool) (id : String) (conn : Connection)
    → IsDict p.connections
    → lookup id p.connections ≡ some conn
    → Shrinks p (use_connection now p id conn).0
unfolding use_connection
use_connection-Shrinks now p id conn d held =
    let used = record conn { in_use = true; last_used_at = now } in
    record {
      dict = insert-IsDict id used p.connections d;
      fewer = omega (arith, length-insert_held id used p.connections (rw held refl));
      same_max = refl;
    }
