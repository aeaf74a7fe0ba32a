-- ===== src/Cache/Invariant.antt =====
-- Every history of calls of the memory cache.
use webmail_engine.Base.{
  ◌<◌, ◌≡◌, refl, true, false, not, ◌&&◌, ◌⊎◌, inl, inr, List, [], ◌∷◌, some, String, arith, length,
  eq_iff, Bool-cases, Option-cases, if_split,
}
use webmail_engine.Base.Int.{ℤ, pos, ◌≤ℤ◌, ◌<ℤ◌, ◌+ℤ◌, ltb_ℤ}
use webmail_engine.Base.Dict.{
  Dict, lookup, remove, has_key, IsDict, insert-IsDict, remove-IsDict, lookup-insert, lookup-remove,
  length-insert, length-remove,
}
use webmail_engine.Cache.{
  MemoryClient, new_memory_client, is_past, delete, first_expired, evict_oldest, delete_first,
  is_full, make_room, store_value, set, expire,
}

-- The keys of a map, as a loop over the map visits them.
abbrev pub AllKeys : {V : Type 0} → Dict V → List String → Type 0
AllKeys d [] = Unit {0}
AllKeys d (key ∷ keys) = (has_key key d ≡ true) × AllKeys d keys

abbrev pub Visits : {V : Type 0} → Dict V → List String → Type 0
Visits d keys = (length keys ≡ length d) × AllKeys d keys

module _ {V : Type 0} where
  -- Both maps are maps, a key with an expiry has a value, and a positive size limit is kept.
  pub record Inv (m : MemoryClient V) : Type 0 where
    pub entries_dict : IsDict m.entries
    pub expires_dict : IsDict m.expires
    pub expires_held : (k : String) → has_key k m.expires ≡ true → has_key k m.entries ≡ true
    pub in_bound : pos 0 <ℤ m.max_size → pos (length m.entries) ≤ℤ m.max_size

  pub new-Inv : (size : ℤ) → Inv (new_memory_client {V = V} size)
  unfolding new_memory_client lookup
  new-Inv size = record {
    entries_dict = tt;
    expires_dict = tt;
    expires_held = λ k h. h;
    in_bound = λ p. ground arith;
  }

  delete_held :
      (m : MemoryClient V) (key : String)
      → Inv m
      → (k : String) → has_key k (remove key m.expires) ≡ true
      → has_key k (remove key m.entries) ≡ true
  delete_held m key h k =
      ground (arith, lookup-remove key k m.expires, lookup-remove key k m.entries, h.expires_held k)

  pub delete-Inv : (m : MemoryClient V) (key : String) → Inv m → Inv (delete m key)
  unfolding delete
  delete-Inv m key h = record {
    entries_dict = remove-IsDict key m.entries h.entries_dict;
    expires_dict = remove-IsDict key m.expires h.expires_dict;
    expires_held = delete_held m key h;
    in_bound = λ p. ground (arith, h.in_bound p, length-remove key m.entries h.entries_dict);
  }

  -- A held key that is deleted makes room for one.
  length-delete :
      (m : MemoryClient V) (key : String)
      → Inv m
      → has_key key m.entries ≡ true
      → length (delete m key).entries < length m.entries
  unfolding delete
  length-delete m key h e = ground (arith, length-remove key m.entries h.entries_dict)

  delete_first-Inv : (m : MemoryClient V) (keys : List String) → Inv m → Inv (delete_first m keys)
  delete_first-Inv m [] h = h
  delete_first-Inv m (key ∷ keys) h = delete-Inv m key h

  pub evict_oldest-Inv :
      (now : ℤ) (expiring visited : List String) (m : MemoryClient V)
      → Inv m
      → Inv (evict_oldest now expiring visited m)
  unfolding evict_oldest
  evict_oldest-Inv now expiring visited m h = elim (Option-cases (first_expired now m expiring)) [
    | inl e ↦ rw (e, evict_oldest) (delete_first-Inv m visited h)
    | inr (key, e) ↦ rw (e, evict_oldest) (delete-Inv m key h)
  ]

  -- What the loop over the expiries finds is a key of that map.
  pub first_expired-held :
      (now : ℤ) (m : MemoryClient V) (keys : List String) (key : String)
      → AllKeys m.expires keys
      → first_expired now m keys ≡ some key
      → has_key key m.expires ≡ true
  unfolding first_expired
  first_expired-held now m [] key h e = absurd (cc)
  first_expired-held now m (k ∷ keys) key h e =
      elim (Bool-cases (is_past now (lookup k m.expires))) [
        | inl past ↦ ground (arith, h.0)
        | inr later ↦ first_expired-held now m keys key h.1 (ground arith)
      ]

  length-delete_first :
      (m : MemoryClient V) (keys : List String)
      → Inv m
      → Visits m.entries keys
      → 0 < length m.entries
      → length (delete_first m keys).entries < length m.entries
  length-delete_first m [] h v p = absurd (omega (arith, v.0))
  length-delete_first m (key ∷ keys) h v p = length-delete m key h v.1.0

  length-evict_oldest :
      (now : ℤ) (expiring visited : List String) (m : MemoryClient V)
      → Inv m
      → AllKeys m.expires expiring
      → Visits m.entries visited
      → 0 < length m.entries
      → length (evict_oldest now expiring visited m).entries < length m.entries
  unfolding evict_oldest
  length-evict_oldest now expiring visited m h x v p =
      elim (Option-cases (first_expired now m expiring)) [
        | inl e ↦ rw (e, evict_oldest) (length-delete_first m visited h v p)
        | inr (key, e) ↦
            rw (e, evict_oldest)
              (length-delete m key h
                (h.expires_held key (first_expired-held now m expiring key x e)))
      ]

  store_value-expires_held :
      (now : ℤ) (m : MemoryClient V) (key : String) (value : V) (ttl : ℤ)
      → Inv m
      → (k : String) → has_key k (store_value now m key value ttl).expires ≡ true
      → has_key k (store_value now m key value ttl).entries ≡ true
  unfolding store_value
  store_value-expires_held now m key value ttl h k = ground (
    arith,
    lookup-insert key k (now +ℤ ttl) m.expires,
    lookup-remove key k m.expires,
    lookup-insert key k value m.entries,
    h.expires_held k,
  )

  store_value-Inv :
      (now : ℤ) (m : MemoryClient V) (key : String) (value : V) (ttl : ℤ)
      → Inv m
      → (has_key key m.entries ≡ true)
        ⊎ (pos 0 <ℤ m.max_size → pos (length m.entries) <ℤ m.max_size)
      → Inv (store_value now m key value ttl)
  unfolding store_value
  store_value-Inv now m key value ttl h room = record {
    entries_dict = insert-IsDict key value m.entries h.entries_dict;
    expires_dict =
        if_split (λ (d : Dict ℤ). IsDict d) (ltb_ℤ (pos 0) ttl)
          (λ _. insert-IsDict key (now +ℤ ttl) m.expires h.expires_dict)
          (λ _. remove-IsDict key m.expires h.expires_dict);
    expires_held = store_value-expires_held now m key value ttl h;
    in_bound = λ p. ground (arith, h.in_bound p, room, length-insert key value m.entries);
  }

  room :
      (m : MemoryClient V) (key : String)
      → (not (has_key key m.entries) && is_full m) ≡ false
      → (has_key key m.entries ≡ true)
        ⊎ (pos 0 <ℤ m.max_size → pos (length m.entries) <ℤ m.max_size)
  room m key free = elim (Bool-cases (has_key key m.entries)) [
    | inl held ↦ inl held
    | inr new ↦ inr (λ p. ground arith)
  ]

  evict_oldest-max_size :
      (now : ℤ) (expiring visited : List String) (m : MemoryClient V)
      → (evict_oldest now expiring visited m).max_size ≡ m.max_size
  unfolding evict_oldest delete
  evict_oldest-max_size now expiring [] m = elim (Option-cases (first_expired now m expiring)) [
    | inl e ↦ rw (e, evict_oldest) refl
    | inr (key, e) ↦ rw (e, evict_oldest) refl
  ]
  evict_oldest-max_size now expiring (k ∷ keys) m =
      elim (Option-cases (first_expired now m expiring)) [
        | inl e ↦ rw (e, evict_oldest) refl
        | inr (key, e) ↦ rw (e, evict_oldest) refl
      ]

  -- After `make_room` the key is held, or there is room for it.
  make_room_lem :
      (now : ℤ) (expiring visited : List String) (m : MemoryClient V) (key : String)
      → Inv m
      → AllKeys m.expires expiring
      → Visits m.entries visited
      → Inv (make_room now expiring visited m key)
        × ((has_key key (make_room now expiring visited m key).entries ≡ true)
            ⊎ (pos 0 <ℤ m.max_size
                → pos (length (make_room now expiring visited m key).entries) <ℤ m.max_size))
        × ((make_room now expiring visited m key).max_size ≡ m.max_size)
  unfolding make_room
  make_room_lem now expiring visited m key h x v =
      if_split
        (λ (n : MemoryClient V).
          Inv n
          × ((has_key key n.entries ≡ true)
              ⊎ (pos 0 <ℤ m.max_size → pos (length n.entries) <ℤ m.max_size))
          × (n.max_size ≡ m.max_size))
        (not (has_key key m.entries) && is_full m)
        (λ full. (
          evict_oldest-Inv now expiring visited m h,
          inr (λ p. ground (arith, h.in_bound p, length-evict_oldest now expiring visited m h x v)),
          evict_oldest-max_size now expiring visited m,
        ))
        (λ free. (h, room m key free, refl))

  pub set-Inv :
      (now : ℤ) (expiring visited : List String) (m : MemoryClient V) (key : String) (value : V)
      (ttl : ℤ)
      → Inv m
      → AllKeys m.expires expiring
      → Visits m.entries visited
      → Inv (set now expiring visited m key value ttl)
  unfolding set
  set-Inv now expiring visited m key value ttl h x v =
      let (h', space, same) = make_room_lem now expiring visited m key h x v in
      store_value-Inv now (make_room now expiring visited m key) key value ttl h' (rw same space)

  pub expire-Inv :
      (now : ℤ) (m : MemoryClient V) (key : String) (ttl : ℤ) → Inv m → Inv (expire now m key ttl)
  unfolding expire
  expire-Inv now m key ttl h =
      if_split Inv (has_key key m.entries)
        (λ held. record {
          entries_dict = h.entries_dict;
          expires_dict = insert-IsDict key (now +ℤ ttl) m.expires h.expires_dict;
          expires_held = λ k e.
              ground
                (arith, lookup-insert key k (now +ℤ ttl) m.expires, h.expires_held k, eq_iff key k);
          in_bound = h.in_bound;
        })
        (λ _. h)
