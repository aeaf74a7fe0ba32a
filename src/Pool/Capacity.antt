-- ===== src/Pool/Capacity.antt =====
-- internal/pool/connection_pool.go: the number of connections.
use webmail_engine.Base.{
  ◌≡◌, refl, false, inl, inr, List, Option, none, some, String, arith, length, Option-cases,
  if_split,
}
use webmail_engine.Base.Int.{ℤ, pos, ◌≤ℤ◌}
use webmail_engine.Base.Dict.{IsDict, insert-IsDict, length-insert}
use webmail_engine.Pool.{
  Connection, ConnectionPool, Admission, refused, reused, dials, is_full, ids_of, cleanup_idle,
  find_idle, reuse, admit, add_connection, complete, acquire, finish_acquire, count_wait,
  count_error,
}
use webmail_engine.Pool.Shrinking.{
  Shrinks, same-Shrinks, chain-Shrinks, cleanup_idle-Shrinks, use_connection-Shrinks, find_idle_lem,
}

-- What `Acquire` does before it dials takes no connection in, and dials only where there is room.
pub record Admits (p : ConnectionPool) (r : ConnectionPool × Admission) : Type 0 where
  pub shrinks : Shrinks p r.0
  pub has_room : r.1 ≡ dials → is_full r.0 ≡ false

reuse-Admits :
    (now : ℤ) (p : ConnectionPool) (account_id conn_type : String)
    → IsDict p.connections
    → is_full p ≡ false
    → Admits p (reuse now p account_id conn_type)
unfolding reuse
reuse-Admits now p account_id conn_type d free =
    elim (Option-cases (find_idle now p conn_type (ids_of p account_id))) [
      | inl e ↦ rw (e, reuse) (record { shrinks = same-Shrinks p d; has_room = λ _. free })
      | inr ((id, conn), e) ↦
          rw (e, reuse)
            (record {
              shrinks =
                  use_connection-Shrinks now p id conn d
                    (find_idle_lem now p conn_type (ids_of p account_id) id conn e).0;
              has_room = λ h. absurd (cc);
            })
    ]

count_wait-Shrinks : (p : ConnectionPool) → IsDict p.connections → Shrinks p (count_wait p)
unfolding count_wait
count_wait-Shrinks p d = record { dict = d; fewer = omega arith; same_max = refl }

refusal : (p q : ConnectionPool) → Shrinks p q → Admits p (count_error q, refused)
unfolding count_error
refusal p q s = record {
  shrinks = record { dict = s.dict; fewer = s.fewer; same_max = s.same_max };
  has_room = λ h. absurd (cc);
}

cleaned-Admits :
    (p q : ConnectionPool) (r : ConnectionPool × Admission) → Shrinks p q → Admits q r → Admits p r
cleaned-Admits p q r s a = record {
  shrinks = chain-Shrinks p q r.0 s a.shrinks;
  has_room = a.has_room;
}

pub admit-Admits :
    (now : ℤ) (visited : List String) (p : ConnectionPool) (account_id conn_type : String)
    → IsDict p.connections
    → Admits p (admit now visited p account_id conn_type)
unfolding admit
admit-Admits now visited p account_id conn_type d =
    let waits = count_wait-Shrinks p d in
    let cleaned = cleanup_idle now (count_wait p) visited in
    let shrinks =
      chain-Shrinks p (count_wait p) cleaned waits
        (cleanup_idle-Shrinks now visited (count_wait p) waits.dict) in
    if_split (Admits p) (is_full p)
      (λ _.
        if_split (Admits p) (is_full cleaned) (λ _. refusal p cleaned shrinks)
          (λ free.
            cleaned-Admits p cleaned (reuse now cleaned account_id conn_type) shrinks
              (reuse-Admits now cleaned account_id conn_type shrinks.dict free)))
      (λ free. reuse-Admits now p account_id conn_type d free)

-- The connections are a map and within the maximum.
pub record IsWithin (p : ConnectionPool) : Type 0 where
  pub dict : IsDict p.connections
  pub bound : pos (length p.connections) ≤ℤ p.max_connections

pub Shrinks-IsWithin : (p q : ConnectionPool) → Shrinks p q → IsWithin p → IsWithin q
Shrinks-IsWithin p q s h = record {
  dict = s.dict;
  bound = rw (s.same_max) (omega (arith, s.fewer, h.bound));
}

pub complete-IsWithin :
    (p : ConnectionPool) (account_id : String) (dialed : Option Connection)
    → IsWithin p
    → is_full p ≡ false
    → IsWithin (complete p account_id dialed).0
unfolding complete add_connection count_error
complete-IsWithin p account_id none h free = record { dict = h.dict; bound = h.bound }
complete-IsWithin p account_id (some conn) h free = record {
  dict = insert-IsDict conn.id conn p.connections h.dict;
  bound = ground (arith, length-insert conn.id conn p.connections, h.bound);
}

finish-IsWithin :
    (p : ConnectionPool) (r : ConnectionPool × Admission) (account_id : String)
    (dialed : Option Connection)
    → IsWithin p
    → Admits p r
    → IsWithin (finish_acquire r account_id dialed).0
finish-IsWithin p (q, refused) account_id dialed h a = Shrinks-IsWithin p q a.shrinks h
finish-IsWithin p (q, reused conn) account_id dialed h a = Shrinks-IsWithin p q a.shrinks h
finish-IsWithin p (q, dials) account_id dialed h a =
    complete-IsWithin q account_id dialed (Shrinks-IsWithin p q a.shrinks h) (a.has_room refl)

-- `Acquire` without another call in between keeps the number of connections within the maximum.
pub acquire-IsWithin :
    (now : ℤ) (visited : List String) (p : ConnectionPool) (account_id conn_type : String)
    (dialed : Option Connection)
    → IsWithin p
    → IsWithin (acquire now visited p account_id conn_type dialed).0
unfolding acquire
acquire-IsWithin now visited p account_id conn_type dialed h =
    finish-IsWithin p (admit now visited p account_id conn_type) account_id dialed h
      (admit-Admits now visited p account_id conn_type h.dict)
