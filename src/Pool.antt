-- ===== src/Pool.antt =====
-- internal/pool/connection_pool.go: `ConnectionPool`. A method takes the pool and returns the new
-- one with its result. `Acquire` holds the mutex in parts: `admit` is what it does before it dials
-- and `complete` what it does with the outcome of the dial, so that the calls of other goroutines can
-- stand between them. The network handles of a connection are left out, and the ID that
-- `createConnection` makes of the time is given by the caller.

pub mod Shrinking
pub mod Capacity
pub mod History
pub mod Reuse
pub mod Listing
pub mod Accounts
pub mod Interleaving
pub mod Race
mod Tests
use webmail_engine.Base.{
  ℕ, Bool, true, false, not, ◌&&◌, List, [], ◌∷◌, ◌++◌, Option, none, some, String, length, str_eq,
  if◌then◌else◌,
}
use webmail_engine.Base.Int.{ℤ, pos, add64, sub64, ◌-ℤ◌, ltb_ℤ, leb_ℤ}
use webmail_engine.Base.Dict.{Dict, lookup, insert, remove}

pub record Connection : Type 0 where
  pub id : String
  pub account_id : String
  pub conn_type : String
  pub created_at : ℤ
  pub last_used_at : ℤ
  pub in_use : Bool
  pub error_count : ℤ

pub record PoolMetrics : Type 0 where
  pub total_created : ℤ
  pub total_closed : ℤ
  pub active_count : ℤ
  pub idle_count : ℤ
  pub wait_count : ℤ
  pub error_count : ℤ
  pub last_metric_time : ℤ

pub record ConnectionPool : Type 0 where
  pub connections : Dict Connection
  pub account_connections : Dict (List String)
  pub max_connections : ℤ
  pub idle_timeout : ℤ
  pub metrics : PoolMetrics

pub data AcquireError : Type 0 where
  capacity dial_failed : AcquireError

pub data Acquired : Type 0 where
  acquired : Connection → Acquired
  failed : AcquireError → Acquired

-- What `Acquire` does with the mutex held, before it dials.
pub data Admission : Type 0 where
  refused : Admission
  reused : Connection → Admission
  dials : Admission

unfoldable pub new_connection_pool : ℤ → ℤ → ℤ → ConnectionPool
new_connection_pool now max_connections idle_timeout = record {
  connections = [];
  account_connections = [];
  max_connections = max_connections;
  idle_timeout = idle_timeout;
  metrics = record {
    total_created = pos 0;
    total_closed = pos 0;
    active_count = pos 0;
    idle_count = pos 0;
    wait_count = pos 0;
    error_count = pos 0;
    last_metric_time = now;
  };
}

-- What a successful `createConnection` returns.
unfoldable pub new_connection : ℤ → String → String → String → Connection
new_connection now id account_id conn_type = record {
  id = id;
  account_id = account_id;
  conn_type = conn_type;
  created_at = now;
  last_used_at = now;
  in_use = true;
  error_count = pos 0;
}

-- A missing key of `accountConnections` reads as an empty slice.
unfoldable pub ids_of : ConnectionPool → String → List String
unfolding lookup
ids_of p account_id = elim (lookup account_id p.account_connections) [ none ↦ [] | some ids ↦ ids ]

unfoldable pub without_first : String → List String → List String
without_first id [] = []
without_first id (x ∷ xs) = let rest = without_first id xs in if str_eq x id then xs else x ∷ rest

-- The map is written only where the ID stands in the slice.
unfoldable pub unlist : ConnectionPool → String → String → Dict (List String)
unfolding lookup insert without_first
unlist p account_id id = elim (lookup account_id p.account_connections) [
  | none ↦ p.account_connections
  | some ids ↦ insert account_id (without_first id ids) p.account_connections
]

unfoldable pub drop_connection : ConnectionPool → String → Connection → ConnectionPool
unfolding remove unlist add64
drop_connection p id conn = record p {
  connections = remove id p.connections;
  account_connections = unlist p conn.account_id id;
  metrics = record (p.metrics) { total_closed = add64 p.metrics.total_closed (pos 1) };
}

abbrev pub is_timed_out : ℤ → ConnectionPool → Connection → Bool
is_timed_out now p conn = not conn.in_use && ltb_ℤ p.idle_timeout (now -ℤ conn.last_used_at)

-- The IDs come in the order in which the runtime visits the map.
unfoldable pub cleanup_idle : ℤ → ConnectionPool → List String → ConnectionPool
unfolding lookup drop_connection ◌-ℤ◌
cleanup_idle now p [] = p
cleanup_idle now p (id ∷ ids) = elim (lookup id p.connections) [
  | none ↦ cleanup_idle now p ids
  | some conn ↦ elim (is_timed_out now p conn) [
    | true ↦ cleanup_idle now (drop_connection p id conn) ids
    | false ↦ cleanup_idle now p ids
  ]
]

abbrev pub is_usable : ℤ → ConnectionPool → String → Connection → Bool
is_usable now p conn_type conn =
    (str_eq conn.conn_type conn_type && not conn.in_use)
    && ltb_ℤ (now -ℤ conn.last_used_at) p.idle_timeout

-- `findIdleConnection` with the connection that it finds under the ID.
unfoldable pub find_idle : ℤ → ConnectionPool → String → List String → Option (String × Connection)
unfolding lookup ◌-ℤ◌
find_idle now p conn_type [] = none
find_idle now p conn_type (id ∷ ids) =
    let rest = find_idle now p conn_type ids in
    elim (lookup id p.connections) [
      | none ↦ rest
      | some conn ↦ (if is_usable now p conn_type conn then some (id, conn) else rest)
    ]

abbrev pub is_full : ConnectionPool → Bool
is_full p = leb_ℤ p.max_connections (pos (length p.connections))

unfoldable pub count_error : ConnectionPool → ConnectionPool
unfolding add64
count_error p = record p {
  metrics = record (p.metrics) { error_count = add64 p.metrics.error_count (pos 1) };
}

unfoldable pub use_connection :
    ℤ → ConnectionPool → String → Connection → ConnectionPool × Connection
unfolding insert
use_connection now p id conn =
    let used = record conn { in_use = true; last_used_at = now } in
    (record p { connections = insert id used p.connections }, used)

-- The search for an idle connection, with room in the pool.
unfoldable pub reuse : ℤ → ConnectionPool → String → String → ConnectionPool × Admission
unfolding find_idle ids_of use_connection
reuse now p account_id conn_type = elim (find_idle now p conn_type (ids_of p account_id)) [
  | none ↦ (p, dials)
  | some (id, conn) ↦ ((use_connection now p id conn).0, reused (use_connection now p id conn).1)
]

unfoldable pub count_wait : ConnectionPool → ConnectionPool
unfolding add64
count_wait p = record p {
  metrics = record (p.metrics) { wait_count = add64 p.metrics.wait_count (pos 1) };
}

unfoldable pub admit :
    ℤ → List String → ConnectionPool → String → String → ConnectionPool × Admission
unfolding cleanup_idle count_error count_wait reuse
admit now visited p account_id conn_type =
    let cleaned = cleanup_idle now (count_wait p) visited in
    if is_full p
    then (if is_full cleaned
        then (count_error cleaned, refused)
        else reuse now cleaned account_id conn_type)
    else reuse now p account_id conn_type

unfoldable pub add_connection : ConnectionPool → String → Connection → ConnectionPool
unfolding insert ids_of add64
add_connection p account_id conn = record p {
  connections = insert conn.id conn p.connections;
  account_connections =
      insert account_id (ids_of p account_id ++ conn.id ∷ []) p.account_connections;
  metrics = record (p.metrics) {
    total_created = add64 p.metrics.total_created (pos 1);
    active_count = add64 p.metrics.active_count (pos 1);
  };
}

-- A failed dial is `none`.
unfoldable pub complete : ConnectionPool → String → Option Connection → ConnectionPool × Acquired
unfolding count_error add_connection
complete p account_id none = (count_error p, failed dial_failed)
complete p account_id (some conn) = (add_connection p account_id conn, acquired conn)

abbrev pub finish_acquire :
    ConnectionPool × Admission → String → Option Connection → ConnectionPool × Acquired
finish_acquire (p, refused) account_id dialed = (p, failed capacity)
finish_acquire (p, reused conn) account_id dialed = (p, acquired conn)
finish_acquire (p, dials) account_id dialed = complete p account_id dialed

-- The whole call, with no other call in between.
unfoldable pub acquire :
    ℤ
    → List String
    → ConnectionPool
    → String
    → String
    → Option Connection
    → ConnectionPool × Acquired
unfolding admit complete
acquire now visited p account_id conn_type dialed =
    finish_acquire (admit now visited p account_id conn_type) account_id dialed

unfoldable pub release : ℤ → ConnectionPool → String → ConnectionPool
unfolding lookup insert add64 sub64
release now p id = elim (lookup id p.connections) [
  | none ↦ p
  | some conn ↦ record p {
    connections = insert id (record conn { in_use = false; last_used_at = now }) p.connections;
    metrics = record (p.metrics) {
      active_count = sub64 p.metrics.active_count (pos 1);
      idle_count = add64 p.metrics.idle_count (pos 1);
    };
  }
]

unfoldable pub close : ConnectionPool → String → ConnectionPool
unfolding lookup drop_connection
close p id = elim (lookup id p.connections) [ none ↦ p | some conn ↦ drop_connection p id conn ]

-- The body of the loop of `CloseAccount`: the slices of IDs stay.
unfoldable pub close_held : ConnectionPool → String → ConnectionPool
unfolding remove add64
close_held p id = record p {
  connections = remove id p.connections;
  metrics = record (p.metrics) { total_closed = add64 p.metrics.total_closed (pos 1) };
}

unfoldable pub close_all : ConnectionPool → List String → ConnectionPool
unfolding lookup close_held
close_all p [] = p
close_all p (id ∷ ids) = elim (lookup id p.connections) [
  | none ↦ close_all p ids
  | some conn ↦ close_all (close_held p id) ids
]

unfoldable pub close_account : ConnectionPool → String → ConnectionPool
unfolding close_all ids_of remove
close_account p account_id =
    let closed = close_all p (ids_of p account_id) in
    record closed { account_connections = remove account_id closed.account_connections }

unfoldable pub get_status : ℤ → ConnectionPool → PoolMetrics
unfolding sub64
get_status now p = record (p.metrics) {
  active_count = pos (length p.connections);
  idle_count = sub64 (pos (length p.connections)) p.metrics.wait_count;
  last_metric_time = now;
}
