-- ===== src/Incremental.antt =====
-- internal/service/message_service_util.go: `fetchIncrementalUpdates`, which merges the UIDs that the server
-- reports as changed into a cached list.
mod Tests
use webmail_engine.Base.{
  ℕ, zero, suc, ◌+◌, ◌≡◌, refl, ◌∙◌, sym, ap, Bool, true, false, not, ◌||◌, List, [], ◌∷◌, ◌++◌,
  Option, none, some, arith, keep_if, ◌==◌, ==_iff, Bool-cases, inl, inr, if_true, if_false,
  if_split, if◌then◌else◌,
}

abbrev pub is_known : List ℕ → ℕ → Bool
is_known [] u = false
is_known (v ∷ vs) u = v == u || is_known vs u

-- The swaps from both ends.
abbrev pub reversed : List ℕ → List ℕ
reversed [] = []
reversed (u ∷ us) = reversed us ++ u ∷ []

abbrev pub added_uids : List ℕ → List ℕ → List ℕ
added_uids existing changed = keep_if (λ u. not (is_known existing u)) changed

abbrev pub merge_added : Bool → List ℕ → List ℕ → List ℕ
merge_added descending existing [] = existing
merge_added descending existing (u ∷ us) =
    if descending then reversed (u ∷ us) ++ existing else existing ++ u ∷ us

-- `changed` is what the server answers; `none` is an error.
unfoldable pub fetch_incremental_updates : List ℕ → Option (List ℕ) → Bool → Option (List ℕ)
unfolding keep_if
fetch_incremental_updates existing none descending = none
fetch_incremental_updates existing (some []) descending = some existing
fetch_incremental_updates existing (some (u ∷ us)) descending =
    some (merge_added descending existing (added_uids existing (u ∷ us)))

abbrev pub count_of : ℕ → List ℕ → ℕ
count_of u [] = 0
count_of u (v ∷ vs) = (if v == u then 1 else 0) + count_of u vs

count_of-append : (u : ℕ) (us vs : List ℕ) → count_of u (us ++ vs) ≡ count_of u us + count_of u vs
count_of-append u [] vs = omega arith
count_of-append u (w ∷ us) vs = omega (arith, count_of-append u us vs)

count_of-reversed : (u : ℕ) (us : List ℕ) → count_of u (reversed us) ≡ count_of u us
count_of-reversed u [] = refl
count_of-reversed u (v ∷ us) =
    omega (arith, count_of-append u (reversed us) (v ∷ []), count_of-reversed u us)

count_of-added_uids :
    (u : ℕ) (existing changed : List ℕ)
    → count_of u (added_uids existing changed)
      ≡ (if is_known existing u then 0 else count_of u changed)
unfolding keep_if
count_of-added_uids u existing [] = ground arith
count_of-added_uids u existing (v ∷ vs) =
    let rest = count_of-added_uids u existing vs in
    let Q =
      λ (ws : List ℕ). count_of u ws ≡ (if is_known existing u then 0 else count_of u (v ∷ vs)) in
    elim (Bool-cases (v == u)) [
      | inl same ↦
          (let here : is_known existing v ≡ is_known existing u =
              ap (is_known existing) (let one : v ≡ u = ground (arith) in one) in
            if_split Q (not (is_known existing v)) (λ fresh. ground (arith, rest, here))
              (λ known. ground (arith, rest, here)))
      | inr other ↦
          if_split Q (not (is_known existing v)) (λ fresh. ground (arith, rest))
            (λ known. ground (arith, rest))
    ]

count_of-merge_added :
    (u : ℕ) (descending : Bool) (existing us : List ℕ)
    → count_of u (merge_added descending existing us) ≡ count_of u existing + count_of u us
count_of-merge_added u descending existing [] = omega arith
count_of-merge_added u true existing (v ∷ vs) =
    omega (arith, count_of-append u (reversed (v ∷ vs)) existing, count_of-reversed u (v ∷ vs))
count_of-merge_added u false existing (v ∷ vs) = count_of-append u existing (v ∷ vs)

abbrev pub count_in : ℕ → Option (List ℕ) → Option ℕ
count_in u none = none
count_in u (some us) = some (count_of u us)

-- The merged list holds each cached UID as often as before and each other UID as often as the server reports
-- it, in either direction of sorting; so none is lost, none is made up, and none that is cached is doubled.
pub fetch_incremental_updates-count_of :
    (u : ℕ) (existing changed : List ℕ) (descending : Bool)
    → count_in u (fetch_incremental_updates existing (some changed) descending)
      ≡ some (count_of u existing + (if is_known existing u then 0 else count_of u changed))
unfolding fetch_incremental_updates
fetch_incremental_updates-count_of u existing [] descending = ap some (
    let same : count_of u existing ≡ count_of u existing + (if is_known existing u then 0 else 0) =
      ground arith in
    same)
fetch_incremental_updates-count_of u existing (v ∷ vs) descending = ap some (
    count_of-merge_added u descending existing (added_uids existing (v ∷ vs))
    ∙ ap (λ (n : ℕ). count_of u existing + n) (count_of-added_uids u existing (v ∷ vs)))
