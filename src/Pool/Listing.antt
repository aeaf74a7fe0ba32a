-- ===== src/Pool/Listing.antt =====
-- internal/pool/connection_pool.go: the IDs that are listed under an account.
use webmail_engine.Base.{
  ◌≡◌, ◌≢◌, refl, ◌∙◌, sym, subst, Bool, true, false, ◌||◌, List, [], ◌∷◌, ◌++◌, none, some, String,
  arith, Option-cases, Bool-cases, str_eq, eq_iff, inl, inr, if_true, if_false, if◌then◌else◌,
}
use webmail_engine.Base.Dict.{
  Dict, lookup, insert, remove, lookup-insert, lookup-insert_self, lookup-remove,
}
use webmail_engine.Pool.{Connection, ConnectionPool, ids_of, without_first, unlist, drop_connection}

unfoldable pub is_in : String → List String → Bool
is_in k [] = false
is_in k (x ∷ xs) = str_eq x k || is_in k xs

-- Every connection of the pool is listed under its account.
abbrev pub Listed : ConnectionPool → Type 0
Listed p =
    (k : String) (c : Connection)
    → lookup k p.connections ≡ some c
    → is_in k (ids_of p c.account_id) ≡ true

is_in-without_first :
    (id k : String) (xs : List String) → k ≢ id → is_in k (without_first id xs) ≡ is_in k xs
unfolding is_in without_first
is_in-without_first id k [] n = refl
is_in-without_first id k (x ∷ xs) n =
    ground (arith, is_in-without_first id k xs n, eq_iff x id, eq_iff x k)

pub is_in-append :
    (k id : String) (xs : List String) → is_in k (xs ++ id ∷ []) ≡ (is_in k xs || str_eq id k)
unfolding is_in
is_in-append k id [] = ground arith
is_in-append k id (x ∷ xs) = ground (arith, is_in-append k id xs)

ids_of-unlist_self :
    (p : ConnectionPool) (id : String) (conn : Connection)
    → ids_of (drop_connection p id conn) conn.account_id
      ≡ without_first id (ids_of p conn.account_id)
unfolding ids_of drop_connection unlist without_first
ids_of-unlist_self p id conn = elim (Option-cases (lookup conn.account_id p.account_connections)) [
  | inl missing ↦ rw (missing, ids_of, unlist) (rw (missing, ids_of) refl)
  | inr (ids, e) ↦
      rw (e, ids_of, unlist)
        (rw (lookup-insert_self conn.account_id (without_first id ids) p.account_connections) refl)
]

ids_of-unlist_other :
    (p : ConnectionPool) (id : String) (conn : Connection) (a : String)
    → str_eq conn.account_id a ≡ false
    → ids_of (drop_connection p id conn) a ≡ ids_of p a
unfolding ids_of drop_connection unlist
ids_of-unlist_other p id conn a other =
    elim (Option-cases (lookup conn.account_id p.account_connections)) [
      | inl missing ↦ rw (missing, ids_of, unlist) refl
      | inr (ids, e) ↦
          rw (e, ids_of, unlist)
            (rw
              (lookup-insert conn.account_id a (without_first id ids) p.account_connections, other)
              refl)
    ]

ids_of-drop :
    (p : ConnectionPool) (id : String) (conn : Connection) (a : String)
    → ids_of (drop_connection p id conn) a
      ≡ (if str_eq conn.account_id a then without_first id (ids_of p a) else ids_of p a)
ids_of-drop p id conn a = elim (Bool-cases (str_eq conn.account_id a)) [
  | inl same ↦ rw same (
      subst (λ (b : String). ids_of (drop_connection p id conn) b ≡ without_first id (ids_of p b))
        ((eq_iff conn.account_id a).0 same) (ids_of-unlist_self p id conn))
  | inr other ↦ rw other (ids_of-unlist_other p id conn a other)
]

held_apart :
    (id k : String) (d : Dict Connection) (c : Connection)
    → lookup k (remove id d) ≡ some c
    → (k ≢ id) × (lookup k d ≡ some c)
held_apart id k d c e = elim (Bool-cases (str_eq id k)) [
  | inl same ↦
      absurd (let gone = lookup-remove id k d ∙ if_true (str_eq id k) none (lookup k d) same in cc)
  | inr other ↦ (
    ground (arith, eq_iff id k),
    sym (lookup-remove id k d ∙ if_false (str_eq id k) none (lookup k d) other) ∙ e,
  )
]

pub drop_connection-Listed :
    (p : ConnectionPool) (id : String) (conn : Connection)
    → Listed p
    → Listed (drop_connection p id conn)
unfolding drop_connection
drop_connection-Listed p id conn h k c e =
    let (apart, held) = held_apart id k p.connections c e in
    ground (
      arith,
      ids_of-drop p id conn c.account_id,
      is_in-without_first id k (ids_of p c.account_id) apart,
      h k c held,
    )

-- A held connection that is replaced by one of the same account stays listed.
pub touch-Listed :
    (p : ConnectionPool) (id : String) (conn used : Connection)
    → Listed p
    → lookup id p.connections ≡ some conn
    → used.account_id ≡ conn.account_id
    → (k : String) (c : Connection) → lookup k (insert id used p.connections) ≡ some c
    → is_in k (ids_of p c.account_id) ≡ true
touch-Listed p id conn used h held same k c e = elim (Bool-cases (str_eq id k)) [
  | inl here ↦
      (let now_some : some used ≡ some c =
          sym (
            lookup-insert id k used p.connections
            ∙ if_true (str_eq id k) (some used) (lookup k p.connections) here)
          ∙ e in
        let is_c : used ≡ c = cc in
        let is_k : id ≡ k = (eq_iff id k).0 here in rw (← is_c, same, ← is_k) (h id conn held))
  | inr other ↦ h k c (
      sym (
        lookup-insert id k used p.connections
        ∙ if_false (str_eq id k) (some used) (lookup k p.connections) other)
      ∙ e)
]
