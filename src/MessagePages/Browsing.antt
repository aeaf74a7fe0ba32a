-- ===== src/MessagePages/Browsing.antt =====
-- internal/service/message_service_message.go: following the cursors of an unchanged folder.
use native.Mathlib.Nat.{zero-mul, suc-mul}
use webmail_engine.Base.{
  ℕ, zero, suc, ◌+◌, ◌-◌, ◌*◌, ◌≤◌, ◌<◌, ◌≡◌, refl, ◌∙◌, sym, ap, subst, Bool, true, false, ◌&&◌,
  List, [], ◌∷◌, ◌++◌, Option, none, some, arith, length, get_elem?, take, drop, take-append-drop,
  drop-drop, length-drop, take_all, ltb, ==_iff, Bool-cases, inl, inr, if_true, if_false, if_split,
}
use webmail_engine.Base.Int.{
  ℤ, pos, negsuc, two_63, add64, mul64, add64_pos, add64_pos_pos, sub64_one, mul64_pos, ltb_ℤ,
  leb_ℤ,
}
use webmail_engine.Store.Page.{slice}
use webmail_engine.MessagePages.{
  CursorData, PageOfUids, is_uid, after_position, position_of, start_index, total_count, page_count,
  last_of, clamp_end, page_of_slice, page_of,
}

abbrev pub prepend : List ℕ → Option (List ℕ) → Option (List ℕ)
prepend us none = none
prepend us (some vs) = some (us ++ vs)

-- The UIDs of a page and of those that its cursor leads to.
abbrev pub after_page : Option PageOfUids → (CursorData → Option (List ℕ)) → Option (List ℕ)
after_page none later = none
after_page (some p) later = elim p.next_cursor [
  | none ↦ some p.uids
  | some c ↦ prepend p.uids (later c)
]

-- At most `k` pages; `none` where a cursor is left after them, or where a page panics.
unfoldable pub follow : ℕ → ℤ → ℤ → CursorData → List ℕ → Option (List ℕ)
unfolding page_of
follow zero limit message_count c us = none
follow (suc k) limit message_count c us =
    after_page (page_of limit message_count c us) (λ c'. follow k limit message_count c' us)

start_index-first :
    (n u : ℕ) (us : List ℕ) → start_index (pos n) (record { page = pos 0; last_uid = u }) us ≡ pos 0
unfolding start_index
start_index-first n u us =
    let nothing : mul64 (pos 0) (pos n) ≡ pos 0 =
      mul64_pos 0 n (rw (zero-mul n) (omega arith)) ∙ ap pos (zero-mul n) in
    let outside : (ltb 0 u && leb_ℤ (pos 0) (negsuc 0) && ltb_ℤ (negsuc 0) (pos (length us)))
        ≡ false =
      ground arith in
    rw nothing (if_false _ _ _ outside)

start_index-matches :
    (p n u : ℕ) (us : List ℕ)
    → 0 < p * n
    → p * n < two_63
    → get_elem? us (p * n - 1) ≡ some u
    → start_index (pos n) (record { page = pos p; last_uid = u }) us ≡ pos (p * n)
unfolding start_index
start_index-matches p n u us o small at =
    rw (mul64_pos p n small, sub64_one (p * n) o small)
      (let same : is_uid u (get_elem? us (p * n - 1)) ≡ true = rw at ((==_iff u u).1 refl) in
        if_split (λ (s : ℤ). s ≡ pos (p * n))
          (ltb 0 u && leb_ℤ (pos 0) (pos (p * n - 1)) && ltb_ℤ (pos (p * n - 1)) (pos (length us)))
          (λ _.
            if_true (is_uid u (get_elem? us (p * n - 1))) (pos (p * n))
              (after_position (position_of u us) (pos (p * n))) same)
          (λ _. refl))

-- The last UID of a full page.
last_of-take :
    (us : List ℕ) (o m : ℕ)
    → o + m < length us
    → (u : ℕ) × (last_of (take (suc m) (drop o us)) ≡ some u) × (get_elem? us (o + m) ≡ some u)
last_of-take [] o m h = absurd (omega (arith, h))
last_of-take (x ∷ xs) zero zero h = (x, refl, refl)
last_of-take (x ∷ []) zero (suc m) h = absurd (omega (arith, h))
last_of-take (x ∷ y ∷ ys) zero (suc m) h =
    let (u, last, at) = last_of-take (y ∷ ys) zero m (omega (arith, h)) in
    let same : suc (0 + m) ≡ 0 + suc m = omega arith in
    (u, last, subst (λ (k : ℕ). get_elem? (x ∷ y ∷ ys) k ≡ some u) same at)
last_of-take (x ∷ xs) (suc o) m h =
    let (u, last, at) = last_of-take xs o m (omega (arith, h)) in
    let same : suc (o + m) ≡ suc o + m = omega arith in
    (u, last, subst (λ (k : ℕ). get_elem? (x ∷ xs) k ≡ some u) same at)

slice_part :
    (us : List ℕ) (o n : ℕ)
    → o + n ≤ length us
    → slice us (pos o) (pos (o + n)) ≡ some (take (o + n - o) (drop o us))
unfolding slice
slice_part us o n h = ground arith

page_of-start :
    (limit message_count start end : ℤ) (c : CursorData) (us : List ℕ)
    → start_index limit c us ≡ start
    → leb_ℤ (pos (length us)) start ≡ false
    → clamp_end (pos (length us)) (add64 start limit) ≡ end
    → page_of limit message_count c us
      ≡ page_of_slice limit
          (total_count us message_count)
          c
          (slice us start end)
          (ltb_ℤ end (pos (length us)))
unfolding page_of
page_of-start limit message_count start end c us at inside ends =
    if_false (leb_ℤ (pos (length us)) (start_index limit c us)) _ _ (rw at inside)
    ∙ ap
        (λ (s : ℤ).
          let e = clamp_end (pos (length us)) (add64 s limit) in
          page_of_slice limit (total_count us message_count) c (slice us s e)
            (ltb_ℤ e (pos (length us))))
        at
    ∙ ap
        (λ (e : ℤ).
          page_of_slice limit (total_count us message_count) c (slice us start e)
            (ltb_ℤ e (pos (length us))))
        ends

-- A page after which more follows, and the last one.
abbrev full_page : ℤ → ℤ → CursorData → List ℕ → ℕ → PageOfUids
full_page limit message_count c us u = record {
  uids = us;
  current_page = add64 c.page (pos 1);
  total_pages = page_count message_count limit;
  has_more = true;
  next_cursor = some (record { page = add64 c.page (pos 1); last_uid = u });
}

page_of_slice-more :
    (limit total : ℤ) (c : CursorData) (us : List ℕ) (u : ℕ)
    → last_of us ≡ some u
    → page_of_slice limit total c (some us) true ≡ some (full_page limit total c us u)
unfolding page_of_slice
page_of_slice-more limit total c us u last =
    ap
      (λ (o : Option ℕ). elim o as (λ _. Option PageOfUids) [
        | none ↦ none
        | some v ↦ some (full_page limit total c us v)
      ])
      last

page_of-full :
    (n o : ℕ) (message_count : ℤ) (c : CursorData) (us : List ℕ)
    → start_index (pos (suc n)) c us ≡ pos o
    → o + suc n < length us
    → length us < two_63
    → (u : ℕ) × (get_elem? us (o + n) ≡ some u)
      × (page_of (pos (suc n)) message_count c us
          ≡ some (
              full_page
                (pos (suc n))
                (total_count us message_count)
                c
                (take (suc n) (drop o us))
                u))
page_of-full n o message_count c us at more small =
    let (u, last, there) = last_of-take us o n (omega arith) in
    let inside : leb_ℤ (pos (length us)) (pos o) ≡ false = ground arith in
    let unclamped : ltb_ℤ (pos (length us)) (pos (o + suc n)) ≡ false = ground arith in
    let ends : clamp_end (pos (length us)) (add64 (pos o) (pos (suc n))) ≡ pos (o + suc n) =
      ap (clamp_end (pos (length us))) (add64_pos_pos o (suc n) (omega arith))
      ∙ if_false _ _ _ unclamped in
    let goes_on : ltb_ℤ (pos (o + suc n)) (pos (length us)) ≡ true = ground arith in
    let part : slice us (pos o) (pos (o + suc n)) ≡ some (take (suc n) (drop o us)) =
      slice_part us o (suc n) (omega arith)
      ∙ ap (λ (k : ℕ). some (take k (drop o us)))
          (let same : o + suc n - o ≡ suc n = omega arith in same) in
    (
      u,
      there,
      page_of-start (pos (suc n)) message_count (pos o) (pos (o + suc n)) c us at inside ends
          ∙ rw (part, goes_on)
              (page_of_slice-more (pos (suc n)) (total_count us message_count) c
                (take (suc n) (drop o us)) u last),
    )

clamp_end_all : (l e : ℕ) → l ≤ e → clamp_end (pos l) (pos e) ≡ pos l
clamp_end_all l e h =
    if_split (λ (x : ℤ). x ≡ pos l) (ltb_ℤ (pos l) (pos e)) (λ _. refl)
      (λ same. ap pos (ground (arith)))

slice_rest :
    (us : List ℕ) (o : ℕ) → o ≤ length us → slice us (pos o) (pos (length us)) ≡ some (drop o us)
slice_rest us o h =
    let rest = length us - o in
    let whole : o + rest ≡ length us = omega arith in
    let same : o + rest - o ≡ rest = omega arith in
    ap (λ (k : ℕ). slice us (pos o) (pos k)) (sym whole)
    ∙ slice_part us o rest (omega arith)
    ∙ ap (λ (k : ℕ). some (take k (drop o us))) same
    ∙ ap some (take_all rest (drop o us) (omega (arith, length-drop o us)))

page_of-last :
    (n o : ℕ) (message_count : ℤ) (c : CursorData) (us : List ℕ)
    (later : CursorData → Option (List ℕ))
    → start_index (pos (suc n)) c us ≡ pos o
    → o < length us
    → length us ≤ o + suc n
    → o + suc n < two_63
    → after_page (page_of (pos (suc n)) message_count c us) later ≡ some (drop o us)
unfolding page_of_slice
page_of-last n o message_count c us later at inside end small =
    let inside' : leb_ℤ (pos (length us)) (pos o) ≡ false = ground arith in
    let ends : clamp_end (pos (length us)) (add64 (pos o) (pos (suc n))) ≡ pos (length us) =
      ap (clamp_end (pos (length us))) (add64_pos_pos o (suc n) small)
      ∙ clamp_end_all (length us) (o + suc n) end in
    let over : ltb_ℤ (pos (length us)) (pos (length us)) ≡ false = ground arith in
    let total = total_count us message_count in
    ap (λ (p : Option PageOfUids). after_page p later)
      (page_of-start (pos (suc n)) message_count (pos o) (pos (length us)) c us at inside' ends)
    ∙ ap
        (λ (x : Option (List ℕ)).
          after_page
            (page_of_slice (pos (suc n)) total c x (ltb_ℤ (pos (length us)) (pos (length us))))
            later)
        (slice_rest us o (omega arith))
    ∙ ap (λ (b : Bool). after_page (page_of_slice (pos (suc n)) total c (some (drop o us)) b) later)
        over

-- Following the cursors from a place shows the UIDs from there on.
follow-drop :
    (k n p o : ℕ) (message_count : ℤ) (u : ℕ) (us : List ℕ)
    → start_index (pos (suc n)) (record { page = pos p; last_uid = u }) us ≡ pos o
    → o ≡ p * suc n
    → p ≤ o
    → o < length us
    → length us ≤ o + k
    → length us + suc n < two_63
    → follow k (pos (suc n)) message_count (record { page = pos p; last_uid = u }) us
      ≡ some (drop o us)
unfolding follow
follow-drop zero n p o message_count u us at place le inside enough small =
    absurd (omega (arith, inside, enough))
follow-drop (suc k) n p o message_count u us at place le inside enough small =
    let c : CursorData = record { page = pos p; last_uid = u } in
    let later = λ (c' : CursorData). follow k (pos (suc n)) message_count c' us in
    elim (Bool-cases (ltb (o + suc n) (length us))) [
      | inr ends ↦
          page_of-last n o message_count c us later at inside (ground (arith)) (omega arith)
      | inl goes ↦
          (let more : o + suc n < length us = ground (arith) in
            let (v, there, page) = page_of-full n o message_count c us at more (omega arith) in
            let next : o + suc n ≡ (p + 1) * suc n =
              ap (λ (x : ℕ). x + suc n) place
              ∙ sym (
                  ap (λ (q : ℕ). q * suc n) (let one : p + 1 ≡ suc p = omega arith in one)
                  ∙ suc-mul p (suc n)) in
            let index : get_elem? us ((p + 1) * suc n - 1) ≡ some v =
              subst (λ (x : ℕ). get_elem? us (x - 1) ≡ some v) next
                (subst (λ (j : ℕ). get_elem? us j ≡ some v)
                  (let same : o + n ≡ o + suc n - 1 = omega arith in same) there) in
            let at' : start_index (pos (suc n)) (record { page = pos (p + 1); last_uid = v }) us
                ≡ pos (o + suc n) =
              start_index-matches (p + 1) (suc n) v us (subst (λ (x : ℕ). 0 < x) next (omega arith))
                (subst (λ (x : ℕ). x < two_63) next (omega arith)) index
              ∙ ap pos (sym next) in
            let first = take (suc n) (drop o us) in
            ap (λ (p : Option PageOfUids). after_page p later) page
            ∙ ap
                (λ (q : ℤ).
                  prepend first
                    (follow k (pos (suc n)) message_count (record { page = q; last_uid = v }) us))
                (add64_pos p (omega arith))
            ∙ ap (prepend first) (
                follow-drop k n (p + 1) (o + suc n) message_count v us at' next (omega arith) more
                  (omega arith) small)
            ∙ ap some (
                ap (λ (vs : List ℕ). first ++ vs) (sym (drop-drop o (suc n) us))
                ∙ take-append-drop (suc n) (drop o us)))
    ]

-- From the first page on, following the cursors of a folder that does not change comes to a page without a
-- cursor, after at most as many pages as there are UIDs and without a panic; the pages show each UID once and
-- in order. The folder is not empty, the size of a page is positive, and their sum does not overflow.
pub follow_all :
    (n : ℕ) (message_count : ℤ) (u : ℕ) (us : List ℕ)
    → 0 < n
    → 0 < length us
    → length us + n < two_63
    → follow (length us) (pos n) message_count (record { page = pos 0; last_uid = u }) us ≡ some us
follow_all zero message_count u us p some_uid small = absurd (omega (arith, p))
follow_all (suc n) message_count u us p some_uid small =
    follow-drop (length us) n 0 0 message_count u us (start_index-first (suc n) u us)
      (sym (zero-mul (suc n))) (omega arith) some_uid (omega arith) small
