-- ===== src/MessagePages/Resuming.antt =====
-- internal/service/message_service_message.go: where the next page starts when the folder has changed.
use webmail_engine.Base.{
  ℕ, suc, ◌-◌, ◌*◌, ◌≤◌, ◌<◌, ◌≡◌, refl, ◌∙◌, sym, ap, subst, true, false, ◌&&◌, List, [], ◌∷◌,
  Option, none, some, arith, length, get_elem?, ltb, ◌==◌, Bool-cases, Option-cases, inl, inr,
  if_true, if_false, if_split,
}
use webmail_engine.Base.Int.{ℤ, pos, two_63, add64, sub64_one, mul64_pos, ltb_ℤ, leb_ℤ}
use webmail_engine.MessagePages.{
  position_of, is_uid, after_position, start_index, total_count, page_count, page_of,
}

position_of-holds :
    (u : ℕ) (us : List ℕ) (i : ℕ) → position_of u us ≡ some i → get_elem? us i ≡ some u
unfolding position_of
position_of-holds u [] i h = absurd (cc)
position_of-holds u (v ∷ vs) i h =
    let rest : Option ℕ = elim (position_of u vs) [ none ↦ none | some j ↦ some (suc j) ] in
    elim (Bool-cases (v == u)) [
      | inl same ↦
          (let first : some 0 ≡ some i = sym (if_true (v == u) (some 0) rest same) ∙ h in
            let at : 0 ≡ i = cc in
            let here : v ≡ u = ground (arith) in
            subst (λ (k : ℕ). get_elem? (v ∷ vs) k ≡ some u) at (ap some here))
      | inr other ↦ elim (Option-cases (position_of u vs)) [
        | inl missing ↦
            (let clash : ◌≡◌ {A = Option ℕ} none (some i) =
                sym (
                  ap
                    (λ (o : Option ℕ). elim o as (λ _. Option ℕ) [
                      | none ↦ none
                      | some j ↦ some (suc j)
                    ])
                    missing)
                ∙ sym (if_false (v == u) (some 0) rest other)
                ∙ h in
              absurd (cc))
        | inr (j, later) ↦
            (let next : some (suc j) ≡ some i =
                sym (
                  ap
                    (λ (o : Option ℕ). elim o as (λ _. Option ℕ) [
                      | none ↦ none
                      | some j ↦ some (suc j)
                    ])
                    later)
                ∙ sym (if_false (v == u) (some 0) rest other)
                ∙ h in
              let at : suc j ≡ i = cc in
              subst (λ (k : ℕ). get_elem? (v ∷ vs) k ≡ some u) at (position_of-holds u vs j later))
      ]
    ]

is_uid-holds : (u : ℕ) (o : Option ℕ) → is_uid u o ≡ true → o ≡ some u
is_uid-holds u none h = absurd (cc)
is_uid-holds u (some v) h = ap some (ground (arith))

-- The place just before the start holds the UID.
abbrev pub FollowsUid : ℕ → List ℕ → ℤ → Type 0
FollowsUid u us start = (k : ℕ) × (start ≡ pos (suc k)) × (get_elem? us k ≡ some u)

after_position-FollowsUid :
    (u : ℕ) (us : List ℕ) (i : ℕ) (start : ℤ)
    → position_of u us ≡ some i
    → FollowsUid u us (after_position (position_of u us) start)
after_position-FollowsUid u us i start h = rw h (i, refl, position_of-holds u us i h)

-- Where the place of the cursor is inside the folder and its UID is still there, the next page begins just
-- after that UID, whatever messages came or went before it.
pub start_index-resumes :
    (p n u i : ℕ) (us : List ℕ)
    → 0 < u
    → 0 < p * n
    → p * n ≤ length us
    → length us < two_63
    → position_of u us ≡ some i
    → FollowsUid u us (start_index (pos n) (record { page = pos p; last_uid = u }) us)
unfolding start_index
start_index-resumes p n u i us up o within small found =
    rw (mul64_pos p n (omega arith), sub64_one (p * n) o (omega arith))
      (let inside : (ltb 0 u
              && leb_ℤ (pos 0) (pos (p * n - 1))
              && ltb_ℤ (pos (p * n - 1)) (pos (length us)))
            ≡ true =
          ground (arith) in
        subst (FollowsUid u us) (sym (if_true _ _ _ inside)) (
          if_split (FollowsUid u us) (is_uid u (get_elem? us (p * n - 1)))
            (λ hit.
              (p * n - 1, ap pos (omega arith), is_uid-holds u (get_elem? us (p * n - 1)) hit))
            (λ _. after_position-FollowsUid u us i (pos (p * n)) found)))

start_index-beyond :
    (p n u : ℕ) (us : List ℕ)
    → length us < p * n
    → p * n < two_63
    → start_index (pos n) (record { page = pos p; last_uid = u }) us ≡ pos (p * n)
unfolding start_index
start_index-beyond p n u us beyond small =
    rw (mul64_pos p n small, sub64_one (p * n) (omega arith) small)
      (let outside : (ltb 0 u
              && leb_ℤ (pos 0) (pos (p * n - 1))
              && ltb_ℤ (pos (p * n - 1)) (pos (length us)))
            ≡ false =
          ground (arith) in
        if_false _ _ _ outside)

-- Where the folder has shrunk below the place of the cursor, the page is empty and the last, wherever the UID
-- of the cursor now is: what comes after it is not shown.
pub page_of-beyond :
    (p n u : ℕ) (message_count : ℤ) (us : List ℕ)
    → length us < p * n
    → p * n < two_63
    → page_of (pos n) message_count (record { page = pos p; last_uid = u }) us
      ≡ some (record {
        uids = [];
        current_page = add64 (pos p) (pos 1);
        total_pages = page_count (total_count us message_count) (pos n);
        has_more = false;
        next_cursor = none;
      })
unfolding page_of
page_of-beyond p n u message_count us beyond small =
    let start = start_index (pos n) (record { page = pos p; last_uid = u }) us in
    let past : leb_ℤ (pos (length us)) start ≡ true =
      rw (start_index-beyond p n u us beyond small) (ground (arith)) in
    if_true (leb_ℤ (pos (length us)) start) _ _ past
