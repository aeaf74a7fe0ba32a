-- ===== src/Base/Dict.antt =====
-- Go's `map[string]V` as an association list. The order of the list is the order in which a `range`
-- over the map visits it.
use text.Mathlib.TextEquality.{eq_iff}
use webmail_engine.Base.{
  suc, ◌≡◌, ◌≢◌, refl, inl, inr, Bool, false, List, [], ◌∷◌, Option, none, some, arith, length,
  is_some, if◌then◌else◌, String, str_eq, Bool-cases, subst,
}

abbrev pub Dict {ℓ} : Type ℓ → Type ℓ
Dict V = List (String × V)

-- The values, in the order of a `range`.
abbrev pub values {ℓ} : {V : Type ℓ} → Dict V → List V
values [] = []
values ((k, v) ∷ m) = v ∷ values m

module _ {ℓ} {V : Type ℓ} where
  unfoldable pub lookup : String → Dict V → Option V
  lookup key [] = none
  lookup key ((head, value) ∷ rest) = if str_eq head key then some value else lookup key rest

  -- `m[key] = value` keeps the place of a key that is there, and adds a new one at the end.
  unfoldable pub insert : String → V → Dict V → Dict V
  insert key value [] = (key, value) ∷ []
  insert key value ((head, old) ∷ rest) =
      let below = insert key value rest in
      if str_eq head key then (key, value) ∷ rest else (head, old) ∷ below

  -- `delete(m, key)`: a missing key changes nothing.
  unfoldable pub remove : String → Dict V → Dict V
  remove key [] = []
  remove key ((head, old) ∷ rest) =
      let below = remove key rest in if str_eq head key then below else (head, old) ∷ below

  abbrev pub has_key : String → Dict V → Bool
  has_key k m = is_some (lookup k m)

  pub lookup_missing : (k : String) (m : Dict V) → has_key k m ≡ false → lookup k m ≡ none
  lookup_missing k m h = ground arith

  -- No key occurs twice.
  abbrev pub IsDict : Dict V → Type ℓ
  IsDict [] = Unit
  IsDict ((k, v) ∷ m) = (lookup k m ≡ none) × IsDict m

  pub lookup-insert :
      (key other : String) (value : V) (m : Dict V)
      → lookup other (insert key value m)
        ≡ (if str_eq key other then some value else lookup other m)
  unfolding lookup insert
  lookup-insert key other value [] = refl
  lookup-insert key other value ((head, old) ∷ rest) = ground (
    arith,
    lookup-insert key other value rest,
    eq_iff key other,
    eq_iff head key,
    eq_iff head other,
  )

  pub lookup-remove :
      (k j : String) (m : Dict V)
      → lookup j (remove k m) ≡ (if str_eq k j then none else lookup j m)
  unfolding lookup remove
  lookup-remove k j [] = ground arith
  lookup-remove k j ((i, w) ∷ m) =
      ground (arith, eq_iff k j, eq_iff i k, eq_iff i j, lookup-remove k j m)

  pub lookup-insert_self : (k : String) (v : V) (m : Dict V) → lookup k (insert k v m) ≡ some v
  lookup-insert_self k v m = ground (arith, lookup-insert k k v m, eq_iff k k)

  pub lookup-insert_ne :
      (k j : String) (v : V) (m : Dict V) → j ≢ k → lookup j (insert k v m) ≡ lookup j m
  lookup-insert_ne k j v m h = ground (arith, lookup-insert k j v m, eq_iff k j)

  pub lookup-remove_self : (k : String) (m : Dict V) → lookup k (remove k m) ≡ none
  lookup-remove_self k m = ground (arith, lookup-remove k k m, eq_iff k k)

  pub lookup-remove_ne : (k j : String) (m : Dict V) → j ≢ k → lookup j (remove k m) ≡ lookup j m
  lookup-remove_ne k j m h = ground (arith, lookup-remove k j m, eq_iff k j)

  pub insert-IsDict : (k : String) (v : V) (m : Dict V) → IsDict m → IsDict (insert k v m)
  unfolding lookup insert
  insert-IsDict k v [] h = ground arith
  insert-IsDict k v ((j, w) ∷ m) h =
      ground (arith, eq_iff j k, eq_iff k j, lookup-insert k j v m, insert-IsDict k v m h.1)

  pub remove-IsDict : (k : String) (m : Dict V) → IsDict m → IsDict (remove k m)
  unfolding remove
  remove-IsDict k [] h = h
  remove-IsDict k ((j, w) ∷ m) h =
      ground (arith, eq_iff j k, lookup-remove k j m, remove-IsDict k m h.1)

  pub length-insert :
      (k : String) (v : V) (m : Dict V)
      → length (insert k v m) ≡ (if has_key k m then length m else suc (length m))
  unfolding lookup insert
  length-insert k v [] = refl
  length-insert k v ((j, w) ∷ m) = ground (arith, length-insert k v m)

  remove_missing : (k : String) (m : Dict V) → lookup k m ≡ none → remove k m ≡ m
  unfolding lookup remove
  remove_missing k [] h = refl
  remove_missing k ((j, w) ∷ m) h = ground (arith, remove_missing k m)

  pub length-remove :
      (k : String) (m : Dict V)
      → IsDict m
      → length m ≡ (if has_key k m then suc (length (remove k m)) else length (remove k m))
  unfolding lookup remove
  length-remove k [] h = refl
  length-remove k ((j, w) ∷ m) h =
      ground (arith, eq_iff j k, remove_missing k m, length-remove k m h.1)

-- Every value satisfies `P`.
abbrev pub Each {ℓ κ} : {V : Type ℓ} → (V → Type κ) → Dict V → Type (ℓ ⊔ κ)
Each {V} P m = (k : String) (v : V) → lookup k m ≡ some v → P v

module _ {ℓ κ} {V : Type ℓ} (P : V → Type κ) where
  pub Each-insert : (k : String) (v : V) (m : Dict V) → P v → Each P m → Each P (insert k v m)
  Each-insert k v m p h j w e = elim (Bool-cases (str_eq k j)) [
    | inl same ↦ (let v≡w : v ≡ w = ground (arith, lookup-insert k j v m) in subst P v≡w p)
    | inr other ↦ h j w (ground (arith, lookup-insert k j v m))
  ]

  pub Each-remove : (k : String) (m : Dict V) → Each P m → Each P (remove k m)
  Each-remove k m h j w e = h j w (ground (arith, lookup-remove k j m))

  pub Each-nil : Each P []
  unfolding lookup
  Each-nil k v e = cc
