-- ===== src/Store/Paging.antt =====
-- The pages of a list: what one page holds, that the pages in a row are the list, and where the sum
-- of offset and limit overflows.
use native.Mathlib.Nat.{zero-mul, suc-mul, add_comm}
use webmail_engine.Base.{
  if_split, leb→le, take-add, ℕ, zero, suc, ◌+◌, ◌-◌, ◌*◌, ◌≤◌, ◌<◌, ◌≡◌, refl, ◌∙◌, sym, ap, ◌⊎◌,
  inl, inr, false, List, [], ◌++◌, Option, none, some, arith, length, take, drop, drop_all,
  take_all, drop-drop, length-drop, Bool-cases, leb, ltb, ◌==◌, if◌then◌else◌,
}
use webmail_engine.Base.Int.{ℤ, pos, two_63, add64}
use webmail_engine.Store.Page.{slice, page}

module _ {A : Type 0} where
  page_past : (xs : List A) (o : ℕ) (limit : ℤ) → length xs ≤ o → page xs (pos o) limit ≡ some []
  unfolding page
  page_past xs o limit h = ground arith

  page_rest :
      (xs : List A) (o l : ℕ)
      → o < length xs
      → length xs < two_63
      → o + l < two_63
      → (l ≡ 0) ⊎ (length xs < o + l)
      → page xs (pos o) (pos l) ≡ some (take (length xs - o) (drop o xs))
  unfolding page slice add64
  page_rest xs o l h b c cut = ground arith

  page_part :
      (xs : List A) (o l : ℕ)
      → o < length xs
      → length xs < two_63
      → 0 < l
      → o + l ≤ length xs
      → page xs (pos o) (pos l) ≡ some (take (o + l - o) (drop o xs))
  unfolding page slice add64
  page_part xs o l h b p cut = ground arith

  -- A page of a list of under 2 ^ 63 elements, with offset and limit that are not negative and
  -- whose sum does not overflow, never panics. It holds what follows the offset: at most `limit`
  -- elements of it, or all of it where the limit is 0.
  pub page_lem :
      (xs : List A) (o l : ℕ)
      → length xs < two_63
      → o + l < two_63
      → page xs (pos o) (pos l) ≡ some (if l == 0 then drop o xs else take l (drop o xs))
  page_lem xs o l b c = elim (Bool-cases (leb (length xs) o)) [
    | inl past ↦
        page_past xs o (pos l) (leb→le (length xs) o past)
        ∙ ap some (
            rw (drop_all o xs (leb→le (length xs) o past)) (
              if_split (λ t. [] ≡ t) (l == 0) (λ _. refl) (λ _. sym (take_all l [] (omega arith)))))
    | inr inside ↦ elim (Bool-cases (l == 0)) [
      | inl whole ↦
          page_rest xs o l (ground arith) b c (inl (ground arith))
          ∙ ap some
              (rw whole (take_all (length xs - o) (drop o xs) (omega (arith, length-drop o xs))))
      | inr some_l ↦ elim (Bool-cases (ltb (length xs) (o + l))) [
        | inl short ↦
            page_rest xs o l (ground arith) b c (inr (ground arith))
            ∙ ap some (
                rw some_l (
                  take_all (length xs - o) (drop o xs) (omega (arith, length-drop o xs))
                  ∙ sym (take_all l (drop o xs) (ground (arith, length-drop o xs)))))
        | inr fits ↦
            page_part xs o l (ground arith) b (ground arith) (ground arith)
            ∙ ap some (
                rw some_l
                  (ap (λ (m : ℕ). take m (drop o xs)) (let e : o + l - o ≡ l = omega arith in e)))
      ]
    ]
  ]

  -- Where the sum of a positive limit and a positive offset inside the list overflows, the page
  -- panics.
  pub page_overflow :
      (xs : List A) (o l : ℕ)
      → 0 < o
      → o < length xs
      → length xs < two_63
      → 0 < l
      → l < two_63
      → two_63 ≤ o + l
      → page xs (pos o) (pos l) ≡ none
  unfolding page slice add64
  page_overflow xs o l p h b q c over = ground arith

  -- `k` calls in a row with the limit `n`, from the offset `o`.
  pub browse : ℕ → List A → ℕ → ℕ → Option (List A)
  browse zero xs o n = some []
  browse (suc k) xs o n =
      let rest = browse k xs (o + n) n in
      elim (page xs (pos o) (pos n)) [
        | none ↦ none
        | some shown ↦ elim rest [ none ↦ none | some later ↦ some (shown ++ later) ]
      ]

  browse_lem :
      (k : ℕ) (xs : List A) (o n : ℕ)
      → 0 < n
      → length xs < two_63
      → o + k * n < two_63
      → browse k xs o n ≡ some (take (k * n) (drop o xs))
  unfolding browse
  browse_lem zero xs o n p b c = rw zero-mul refl
  browse_lem (suc k) xs o n p b c =
      let room : o + n + k * n < two_63 = omega (arith, suc-mul k n) in
      let ones : (n == 0) ≡ false = ground arith in
      rw (page_lem xs o n b (omega (arith, room)), browse)
        (rw (browse_lem k xs (o + n) n p b room) (
          rw (ones, suc-mul k n, ← drop-drop o n xs)
            (ap some (rw (add_comm (k * n) n) (sym (take-add n (k * n) (drop o xs)))))))

  -- Pages in a row from the offset 0, with a positive limit, show the whole list, each element once
  -- and in order, where together they cover it and do not overflow.
  pub browse_all :
      (k : ℕ) (xs : List A) (n : ℕ)
      → 0 < n
      → length xs ≤ k * n
      → length xs < two_63
      → k * n < two_63
      → browse k xs 0 n ≡ some xs
  browse_all k xs n p cover b c =
      browse_lem k xs 0 n p b (omega arith) ∙ ap some (take_all (k * n) xs cover)
