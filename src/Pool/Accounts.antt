-- ===== src/Pool/Accounts.antt =====
-- internal/pool/connection_pool.go: the connections of an account. The parts of `Acquire` between
-- which the mutex is free are steps of their own, so that calls may stand between them.
use webmail_engine.Base.{
  ◌≡◌, ◌≢◌, refl, ◌∙◌, sym, true, false, List, [], ◌∷◌, none, some, String, arith, Option-cases,
  Bool-cases, eq_iff, inl, inr, if_true, if_false, if◌then◌else◌,
}
use webmail_engine.Base.Dict.{lookup, lookup-remove}
use webmail_engine.Pool.{Connection, ConnectionPool, ids_of, close_held, close_all, close_account}
use webmail_engine.Pool.Listing.{is_in, Listed}

pub lookup-close_all :
    (ids : List String) (p : ConnectionPool) (k : String)
    → lookup k (close_all p ids).connections
      ≡ (if is_in k ids then none else lookup k p.connections)
unfolding close_all is_in close_held
lookup-close_all [] p k = refl
lookup-close_all (id ∷ ids) p k = elim (Option-cases (lookup id p.connections)) [
  | inl missing ↦ rw (missing, close_all) (ground (arith, lookup-close_all ids p k, eq_iff id k))
  | inr (conn, held) ↦
      rw (held, close_all)
        (ground (arith, lookup-close_all ids (close_held p id) k, lookup-remove id k p.connections))
]

-- `CloseAccount` closes every connection of the account, and no connection that is not listed under
-- it, where every connection is listed under its account.
pub close_account_lem :
    (p : ConnectionPool) (a : String)
    → Listed p
    → ((k : String) (c : Connection)
        → lookup k (close_account p a).connections ≡ some c
        → c.account_id ≢ a)
      × ((k : String)
          → is_in k (ids_of p a) ≡ false
          → lookup k (close_account p a).connections ≡ lookup k p.connections)
unfolding close_account
close_account_lem p a h = (
  λ k c e same. elim (Bool-cases (is_in k (ids_of p a))) [
    | inl listed ↦ absurd (
        let gone =
          lookup-close_all (ids_of p a) p k
          ∙ if_true (is_in k (ids_of p a)) none (lookup k p.connections) listed in
        cc)
    | inr free ↦
        (let held =
            sym (
              lookup-close_all (ids_of p a) p k
              ∙ if_false (is_in k (ids_of p a)) none (lookup k p.connections) free)
            ∙ e in
          let listed : is_in k (ids_of p a) ≡ true = rw (← same) (h k c held) in absurd (cc))
  ],
  λ k free.
      lookup-close_all (ids_of p a) p k
      ∙ if_false (is_in k (ids_of p a)) none (lookup k p.connections) free,
)

pub close_all-account_connections :
    (ids : List String) (p : ConnectionPool)
    → (close_all p ids).account_connections ≡ p.account_connections
unfolding close_all close_held
close_all-account_connections [] p = refl
close_all-account_connections (id ∷ ids) p = elim (Option-cases (lookup id p.connections)) [
  | inl missing ↦ rw (missing, close_all) (close_all-account_connections ids p)
  | inr (conn, held) ↦ rw (held, close_all) (close_all-account_connections ids (close_held p id))
]
