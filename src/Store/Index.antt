-- ===== src/Store/Index.antt =====
-- The email index of the memory store agrees with its accounts.
use webmail_engine.Base.{
  subst, ap, ℕ, if_false, ◌≡◌, refl, ◌⊎◌, inl, inr, true, false, Option, none, some, String, arith,
  Bool-cases, Option-cases, str_eq, eq_iff, sym, ◌∙◌,
}
use webmail_engine.Base.Dict.{
  Dict, lookup, insert, remove, has_key, lookup-insert, lookup-remove, lookup_missing,
}
use webmail_engine.Store.Types.{Account, MemoryStore}
use webmail_engine.Store.{update_existing, create, update, delete}

module _ {R : Type 0} where
  -- Each account stands under its own ID and is indexed under its email, and each entry of the
  -- index leads to an account with that email.
  pub record Agrees (accounts : Dict (Account R)) (index : Dict String) : Type 0 where
    pub keyed : (k : String) (a : Account R) → lookup k accounts ≡ some a → a.id ≡ k
    pub indexed :
        (k : String) (a : Account R) → lookup k accounts ≡ some a → lookup a.email index ≡ some k
    pub backed :
        (e k : String)
        → lookup e index ≡ some k
        → (a : Account R) × (lookup k accounts ≡ some a) × (a.email ≡ e)

  abbrev pub Inv : MemoryStore R → Type 0
  Inv s = Agrees s.accounts s.email_index

  -- An account with other processor configs.
  pub configured-Agrees :
      (accounts : Dict (Account R)) (index : Dict String) (id : String) (a : Account R)
      (configs : Option ℕ)
      → lookup id accounts ≡ some a
      → Agrees accounts index
      → Agrees (insert id (record a { processor_configs = configs }) accounts) index
  configured-Agrees accounts index id a configs at h =
      let b = record a { processor_configs = configs } in
      record {
        keyed = λ k c e.
            ground
              (arith, lookup-insert id k b accounts, eq_iff id k, h.keyed k c, h.keyed k a, at);
        indexed = λ k c e.
            ground
              (arith, lookup-insert id k b accounts, eq_iff id k, h.indexed k c, h.indexed id a at);
        backed = λ e k f. elim (Bool-cases (str_eq id k)) [
          | inl same ↦
              (let (c, there, named) = h.backed e k f in
                let there' : lookup id accounts ≡ some c =
                  subst (λ (j : String). lookup j accounts ≡ some c) (sym ((eq_iff id k).0 same))
                    there in
                let one : some c ≡ some a = sym there' ∙ at in
                let is_a : c ≡ a = cc in
                (
                  b,
                  ground (arith, lookup-insert id k b accounts),
                  sym (ap (λ (x : Account R). x.email) is_a) ∙ named,
                ))
          | inr other ↦
              (let (c, there, named) = h.backed e k f in
                (c, ground (arith, lookup-insert id k b accounts), named))
        ];
      }

  -- A new account under a new ID and a new email.
  insert-Agrees :
      (accounts : Dict (Account R)) (index : Dict String) (a : Account R)
      → Agrees accounts index
      → lookup a.id accounts ≡ none
      → lookup a.email index ≡ none
      → Agrees (insert a.id a accounts) (insert a.email a.id index)
  insert-Agrees accounts index a h fresh_id fresh_email = record {
    keyed = λ k b e. ground (arith, lookup-insert a.id k a accounts, eq_iff a.id k, h.keyed k b);
    indexed = λ k b e. ground (
      arith,
      lookup-insert a.id k a accounts,
      lookup-insert a.email b.email a.id index,
      eq_iff a.id k,
      eq_iff a.email b.email,
      h.indexed k b,
    );
    backed = λ e k f. elim (Bool-cases (str_eq a.email e)) [
      | inl same ↦ (
        a,
        ground (
          arith,
          lookup-insert a.email e a.id index,
          lookup-insert a.id k a accounts,
          eq_iff a.id k,
        ),
        ground (arith, eq_iff a.email e),
      )
      | inr other ↦
          let (b, at_k, named) =
            h.backed e k (ground (arith, lookup-insert a.email e a.id index)) in
          (b, ground (arith, lookup-insert a.id k a accounts, eq_iff a.id k), named)
    ];
  }

  -- A new version of an account, under the same email.
  overwrite-Agrees :
      (accounts : Dict (Account R)) (index : Dict String) (a old : Account R)
      → Agrees accounts index
      → lookup a.id accounts ≡ some old
      → old.email ≡ a.email
      → Agrees (insert a.id a accounts) index
  overwrite-Agrees accounts index a old h at_id same = record {
    keyed = λ k b e. ground (arith, lookup-insert a.id k a accounts, eq_iff a.id k, h.keyed k b);
    indexed = λ k b e.
        ground (
          arith,
          lookup-insert a.id k a accounts,
          eq_iff a.id k,
          h.indexed k b,
          h.indexed a.id old,
        );
    backed = λ e k f.
        let (b, at_k, named) = h.backed e k f in
        elim (Bool-cases (str_eq a.id k)) [
          | inl here ↦
              (a, ground (arith, lookup-insert a.id k a accounts), ground (arith, eq_iff a.id k))
          | inr there ↦ (b, ground (arith, lookup-insert a.id k a accounts), named)
        ];
  }

  -- An account leaves with its entry of the index.
  remove-Agrees :
      (accounts : Dict (Account R)) (index : Dict String) (id : String) (a : Account R)
      → Agrees accounts index
      → lookup id accounts ≡ some a
      → Agrees (remove id accounts) (remove a.email index)
  remove-Agrees accounts index id a h at_id = record {
    keyed = λ k b e. ground (arith, lookup-remove id k accounts, h.keyed k b);
    indexed = λ k b e. ground (
      arith,
      lookup-remove id k accounts,
      lookup-remove a.email b.email index,
      eq_iff id k,
      eq_iff a.email b.email,
      h.indexed k b,
      h.indexed id a,
    );
    backed = λ e k f.
        let (b, at_k, named) = h.backed e k (ground (arith, lookup-remove a.email e index)) in
        (
          b,
          ground (
            arith,
            lookup-remove id k accounts,
            lookup-remove a.email e index,
            eq_iff id k,
            eq_iff a.email e,
          ),
          named,
        );
  }

  -- Only the entries matter, not their order.
  Agrees-ext :
      (m n : Dict (Account R)) (index : Dict String)
      → ((k : String) → lookup k m ≡ lookup k n)
      → Agrees m index
      → Agrees n index
  Agrees-ext m n index same h = record {
    keyed = λ k a e. h.keyed k a (same k ∙ e);
    indexed = λ k a e. h.indexed k a (same k ∙ e);
    backed = λ e k f. let (a, at_k, named) = h.backed e k f in (a, sym (same k) ∙ at_k, named);
  }

  -- A new version of an account, under a new email.
  rename-Agrees :
      (accounts : Dict (Account R)) (index : Dict String) (a old : Account R)
      → Agrees accounts index
      → lookup a.id accounts ≡ some old
      → lookup a.email index ≡ none
      → Agrees (insert a.id a accounts) (insert a.email a.id (remove old.email index))
  rename-Agrees accounts index a old h at_id fresh =
      Agrees-ext (insert a.id a (remove a.id accounts)) (insert a.id a accounts) _
        (λ k. ground (
          arith,
          lookup-insert a.id k a (remove a.id accounts),
          lookup-insert a.id k a accounts,
          lookup-remove a.id k accounts,
        ))
        (insert-Agrees (remove a.id accounts) (remove old.email index) a
          (remove-Agrees accounts index a.id old h at_id)
          (ground (arith, lookup-remove a.id a.id accounts, eq_iff a.id a.id))
          (ground (arith, lookup-remove old.email a.email index)))

  -- The ID of a created account is new.
  abbrev pub IsNew : MemoryStore R → Option (Account R) → Type 0
  IsNew s none = Unit {0}
  IsNew s (some a) = lookup a.id s.accounts ≡ none

  pub create-Inv :
      (s : MemoryStore R) (a : Option (Account R)) → IsNew s a → Inv s → Inv (create s a).0
  unfolding create
  create-Inv s none n h = h
  create-Inv s (some a) n h = elim (Bool-cases s.closed) [
    | inl c ↦ rw c h
    | inr c ↦ elim (Bool-cases (has_key a.email s.email_index)) [
      | inl e ↦ rw (c, e) h
      | inr e ↦
          rw (c, e)
            (insert-Agrees s.accounts s.email_index a h n (lookup_missing a.email s.email_index e))
    ]
  ]

  update_existing-Inv :
      (s : MemoryStore R) (a old : Account R)
      → lookup a.id s.accounts ≡ some old
      → Inv s
      → Inv (update_existing s a old).0
  unfolding update_existing
  update_existing-Inv s a old e h = elim (Bool-cases (str_eq old.email a.email)) [
    | inl same ↦
        rw same
          (overwrite-Agrees s.accounts s.email_index a old h e ((eq_iff old.email a.email).0 same))
    | inr other ↦ elim (Bool-cases (has_key a.email s.email_index)) [
      | inl taken ↦ rw (other, taken) h
      | inr free ↦
          rw (other, free)
            (rename-Agrees s.accounts s.email_index a old h e
              (lookup_missing a.email s.email_index free))
    ]
  ]

  update_refused :
      (s : MemoryStore R) (a : Account R)
      → (s.closed ≡ true) ⊎ (lookup a.id s.accounts ≡ none)
      → (update s (some a)).0 ≡ s
  unfolding update
  update_refused s a h = ground arith

  pub update_found :
      (s : MemoryStore R) (a old : Account R)
      → s.closed ≡ false
      → lookup a.id s.accounts ≡ some old
      → update s (some a) ≡ update_existing s a old
  unfolding update
  update_found s a old c e = if_false s.closed _ _ c ∙ (rw e refl)

  pub update-Inv : (s : MemoryStore R) (a : Option (Account R)) → Inv s → Inv (update s a).0
  update-Inv s none h = unfold update in h
  update-Inv s (some a) h = elim (Bool-cases s.closed) [
    | inl c ↦ rw (update_refused s a (inl c)) h
    | inr c ↦ elim (Option-cases (lookup a.id s.accounts)) [
      | inl e ↦ rw (update_refused s a (inr e)) h
      | inr (old, e) ↦ rw (update_found s a old c e) (update_existing-Inv s a old e h)
    ]
  ]

  pub delete-Inv : (s : MemoryStore R) (id : String) → Inv s → Inv (delete s id).0
  unfolding delete
  delete-Inv s id h = elim (Bool-cases s.closed) [
    | inl c ↦ rw c h
    | inr c ↦ elim (Option-cases (lookup id s.accounts)) [
      | inl e ↦ rw (c, e) h
      | inr (a, e) ↦ rw (c, e) (remove-Agrees s.accounts s.email_index id a h e)
    ]
  ]
