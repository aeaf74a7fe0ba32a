-- ===== src/Store/Accounts.antt =====
-- What the account methods of the memory store promise each other.
use webmail_engine.Base.{
  if_false, ◌≡◌, ◌≢◌, refl, ◌∙◌, sym, ◌⊎◌, inl, inr, true, false, Option, none, some, String, arith,
  Bool-cases, Option-cases, ap, eq_iff,
}
use webmail_engine.Base.Dict.{
  lookup, insert, remove, has_key, lookup-insert_self, lookup-insert_ne, lookup-remove_self,
  lookup-remove_ne,
}
use webmail_engine.Store.Types.{not_found, already_exists, ok, err, Account, MemoryStore}
use webmail_engine.Store.{
  found, add_account, replace, update_existing, drop_account, get_by_id, get_by_email, create,
  update, delete,
}
use webmail_engine.Store.Index.{Inv, update_found}

module _ {R : Type 0} where
  get_by_id_found :
      (s : MemoryStore R) (id : String) (a : Account R)
      → s.closed ≡ false
      → lookup id s.accounts ≡ some a
      → (get_by_id s id).1 ≡ ok a
  unfolding get_by_id
  get_by_id_found s id a o e = rw (o, e) refl

  get_by_id_missing :
      (s : MemoryStore R) (id : String)
      → s.closed ≡ false
      → lookup id s.accounts ≡ none
      → (get_by_id s id).1 ≡ err not_found
  unfolding get_by_id
  get_by_id_missing s id o e = rw (o, e) refl

  get_by_email_found :
      (s : MemoryStore R) (email id : String) (a : Account R)
      → s.closed ≡ false
      → lookup email s.email_index ≡ some id
      → lookup id s.accounts ≡ some a
      → (get_by_email s email).1 ≡ ok a
  unfolding get_by_email
  get_by_email_found s email id a o e f = rw (o, e) (rw f refl)

  get_by_email_missing :
      (s : MemoryStore R) (email : String)
      → s.closed ≡ false
      → lookup email s.email_index ≡ none
      → (get_by_email s email).1 ≡ err not_found
  unfolding get_by_email
  get_by_email_missing s email o e = rw (o, e) refl

  create_free :
      (s : MemoryStore R) (a : Account R)
      → s.closed ≡ false
      → has_key a.email s.email_index ≡ false
      → create s (some a) ≡ (add_account s a, ok tt)
  unfolding create
  create_free s a o free = rw (o, free) refl

  create_taken :
      (s : MemoryStore R) (a : Account R)
      → s.closed ≡ false
      → has_key a.email s.email_index ≡ true
      → create s (some a) ≡ (s, err already_exists)
  unfolding create
  create_taken s a o taken = rw (o, taken) refl

  found_same : (s t : MemoryStore R) (a : Option (Account R)) → (found s a).1 ≡ (found t a).1
  unfolding found
  found_same s t none = refl
  found_same s t (some a) = refl

  add_account-get_by_email :
      (s : MemoryStore R) (a : Account R) (e : String)
      → s.closed ≡ false
      → e ≢ a.email
      → lookup e s.email_index ≢ some a.id
      → (get_by_email (add_account s a) e).1 ≡ (get_by_email s e).1
  unfolding add_account get_by_email
  add_account-get_by_email s a e o ne elsewhere =
      let known = lookup-insert_ne a.email e a.id s.email_index ne in
      elim (Option-cases (lookup e s.email_index)) [
        | inl missing ↦ rw (o, known, missing) refl
        | inr (id, at) ↦
            (let differ : id ≢ a.id = λ same. elsewhere (at ∙ ap some same) in
              rw (o, known, at)
                (rw (lookup-insert_ne a.id id a s.accounts differ)
                  (found_same (add_account s a) s (lookup id s.accounts))))
      ]

  -- `Create` on an open store refuses an email that is taken, and changes nothing then. With a free
  -- email the account can be read back by its ID and by its email; what stands under other IDs and
  -- the entries of other emails in the index stay, and another email finds what it found, unless its
  -- entry is the ID of the new account.
  pub create_lem :
      (s : MemoryStore R) (a : Account R)
      → s.closed ≡ false
      → let s' = (create s (some a)).0 in
        ((has_key a.email s.email_index ≡ true) × (create s (some a) ≡ (s, err already_exists)))
        ⊎ ((has_key a.email s.email_index ≡ false)
            × ((create s (some a)).1 ≡ ok tt)
            × ((get_by_id s' a.id).1 ≡ ok a)
            × ((get_by_email s' a.email).1 ≡ ok a)
            × ((j : String) → j ≢ a.id → lookup j s'.accounts ≡ lookup j s.accounts)
            × ((e : String) → e ≢ a.email → lookup e s'.email_index ≡ lookup e s.email_index)
            × ((e : String)
                → e ≢ a.email
                → lookup e s.email_index ≢ some a.id
                → (get_by_email s' e).1 ≡ (get_by_email s e).1))
  unfolding add_account
  create_lem s a o = elim (Bool-cases (has_key a.email s.email_index)) [
    | inl taken ↦ inl (taken, create_taken s a o taken)
    | inr free ↦
        let here = lookup-insert_self a.id a s.accounts in
        let known = lookup-insert_self a.email a.id s.email_index in
        inr (
          rw (create_free s a o free) (
            free,
            refl,
            get_by_id_found (add_account s a) a.id a o here,
            get_by_email_found (add_account s a) a.email a.id a o known here,
            λ j ne. lookup-insert_ne a.id j a s.accounts ne,
            λ e ne. lookup-insert_ne a.email e a.id s.email_index ne,
            λ e ne elsewhere. add_account-get_by_email s a e o ne elsewhere,
          ))
  ]

  update_taken :
      (s : MemoryStore R) (a old : Account R)
      → old.email ≢ a.email
      → has_key a.email s.email_index ≡ true
      → update_existing s a old ≡ (s, err already_exists)
  unfolding update_existing
  update_taken s a old ne taken = ground (arith, eq_iff old.email a.email)

  ap_email : {a b : Account R} → ◌≡◌ {A = Option (Account R)} (some a) (some b) → a.email ≡ b.email
  ap_email e = ground arith

  update_moved :
      (s : MemoryStore R) (a old : Account R)
      → old.email ≢ a.email
      → has_key a.email s.email_index ≡ false
      → update_existing s a old
        ≡ (replace s a (insert a.email a.id (remove old.email s.email_index)), ok tt)
  unfolding update_existing
  update_moved s a old ne free = ground (arith, eq_iff old.email a.email)

  -- `Update` of an existing account to another email, on an open store. A taken email is refused
  -- with no change. A free one becomes the key under which the account is found, and the old one
  -- leads nowhere.
  pub update_email_lem :
      (s : MemoryStore R) (a old : Account R)
      → s.closed ≡ false
      → lookup a.id s.accounts ≡ some old
      → old.email ≢ a.email
      → let s' = (update s (some a)).0 in
        ((has_key a.email s.email_index ≡ true) × (update s (some a) ≡ (s, err already_exists)))
        ⊎ ((has_key a.email s.email_index ≡ false)
            × ((update s (some a)).1 ≡ ok tt)
            × ((get_by_id s' a.id).1 ≡ ok a)
            × ((get_by_email s' a.email).1 ≡ ok a)
            × ((get_by_email s' old.email).1 ≡ err not_found))
  unfolding replace
  update_email_lem s a old o e ne = elim (Bool-cases (has_key a.email s.email_index)) [
    | inl taken ↦ inl (taken, update_found s a old o e ∙ update_taken s a old ne taken)
    | inr free ↦
        let index = insert a.email a.id (remove old.email s.email_index) in
        let here = lookup-insert_self a.id a s.accounts in
        let known = lookup-insert_self a.email a.id (remove old.email s.email_index) in
        inr (
          rw (update_found s a old o e ∙ update_moved s a old ne free) (
            free,
            refl,
            get_by_id_found (replace s a index) a.id a o here,
            get_by_email_found (replace s a index) a.email a.id a o known here,
            get_by_email_missing (replace s a index) old.email o (
                lookup-insert_ne a.email old.email a.id (remove old.email s.email_index) ne
                ∙ lookup-remove_self old.email s.email_index),
          ))
  ]

  delete_found :
      (s : MemoryStore R) (id : String) (a : Account R)
      → s.closed ≡ false
      → lookup id s.accounts ≡ some a
      → delete s id ≡ (drop_account s id a, ok tt)
  unfolding delete
  delete_found s id a o e = if_false s.closed _ _ o ∙ (rw e refl)

  -- After `Delete` of an existing account of an open store neither its ID nor its email leads
  -- anywhere; other IDs and emails lead where they did.
  pub delete_lem :
      (s : MemoryStore R) (id : String) (a : Account R)
      → s.closed ≡ false
      → lookup id s.accounts ≡ some a
      → let s' = (delete s id).0 in
        ((delete s id).1 ≡ ok tt)
        × ((get_by_id s' id).1 ≡ err not_found)
        × ((get_by_email s' a.email).1 ≡ err not_found)
        × ((j : String) → j ≢ id → lookup j s'.accounts ≡ lookup j s.accounts)
        × ((e : String) → e ≢ a.email → lookup e s'.email_index ≡ lookup e s.email_index)
  unfolding drop_account
  delete_lem s id a o e = rw (delete_found s id a o e) (
    refl,
    get_by_id_missing (drop_account s id a) id o (lookup-remove_self id s.accounts),
    get_by_email_missing (drop_account s id a) a.email o (lookup-remove_self a.email s.email_index),
    λ j ne. lookup-remove_ne id j s.accounts ne,
    λ f ne. lookup-remove_ne a.email f s.email_index ne,
  )

  -- `Create` checks the email and not the ID. On an open store whose index agrees with its
  -- accounts, a new email under an ID that is in use replaces that account, the old email now leads
  -- to an account with another email, and the index no longer agrees with the accounts.
  pub create_over_existing :
      (s : MemoryStore R) (a old : Account R)
      → s.closed ≡ false
      → Inv s
      → lookup a.id s.accounts ≡ some old
      → old.email ≢ a.email
      → has_key a.email s.email_index ≡ false
      → let s' = (create s (some a)).0 in
        ((create s (some a)).1 ≡ ok tt) × ((get_by_email s' old.email).1 ≡ ok a) × ¬ Inv s'
  unfolding add_account
  create_over_existing s a old o h e ne free =
      let here = lookup-insert_self a.id a s.accounts in
      let stale : lookup old.email (insert a.email a.id s.email_index) ≡ some a.id =
        lookup-insert_ne a.email old.email a.id s.email_index ne ∙ h.indexed a.id old e in
      rw (create_free s a o free) (
        refl,
        get_by_email_found (add_account s a) old.email a.id a o stale here,
        λ bad.
            let (b, at, named) = bad.backed old.email a.id stale in
            ne (sym (ap_email (sym here ∙ at) ∙ named)),
      )
