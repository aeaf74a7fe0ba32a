-- ===== src/MessagePages/Tests.antt =====
-- The theorems on the pages of a folder at concrete inputs.
use webmail_engine.Base.{ℕ, ◌≡◌, refl, false, List, [], ◌∷◌, none, some, arith, length}
use webmail_engine.Base.Int.{pos, add64}
use webmail_engine.MessagePages.{position_of, start_index, page_count, total_count, page_of}
use webmail_engine.MessagePages.Resuming.{FollowsUid, start_index-resumes, page_of-beyond}
use webmail_engine.MessagePages.Browsing.{follow, follow_all}

abbrev folder : List ℕ
folder = 31 ∷ 29 ∷ 28 ∷ 20 ∷ 7 ∷ []

abbrev with_new : List ℕ
with_new = 40 ∷ 31 ∷ 29 ∷ 28 ∷ 20 ∷ 7 ∷ []

follow_all_example :
    follow (length folder) (pos 2) (pos 5) (record { page = pos 0; last_uid = 0 }) folder
    ≡ some folder
follow_all_example = follow_all 2 (pos 5) 0 folder (omega arith) (omega arith) (omega arith)

start_index-resumes_example :
    FollowsUid 29 with_new (start_index (pos 2) (record { page = pos 1; last_uid = 29 }) with_new)
unfolding position_of
start_index-resumes_example =
    start_index-resumes 1 2 29 2 with_new (omega arith) (omega arith) (omega arith) (omega arith)
      refl

abbrev shrunk : List ℕ
shrunk = 20 ∷ 7 ∷ 3 ∷ []

page_of-beyond_example :
    page_of (pos 2) (pos 3) (record { page = pos 2; last_uid = 20 }) shrunk
    ≡ some (record {
      uids = [];
      current_page = add64 (pos 2) (pos 1);
      total_pages = page_count (total_count shrunk (pos 3)) (pos 2);
      has_more = false;
      next_cursor = none;
    })
page_of-beyond_example = page_of-beyond 2 2 20 (pos 3) shrunk (omega arith) (omega arith)
