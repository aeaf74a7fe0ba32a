-- ===== src/MessagePages.antt =====
-- internal/service/message_service_message.go: the part of `GetMessageList` that chooses the UIDs of a page
-- and the next cursor, after the UIDs of the folder have been read. The batches in which the messages are
-- fetched, and the fields of a cursor that are only copied, are left out.
pub mod Resuming
pub mod Browsing
mod Tests
use webmail_engine.Base.{
  ℕ, suc, Bool, true, false, ◌&&◌, List, [], ◌∷◌, Option, none, some, length, get_elem?, ltb, ◌==◌,
  if◌then◌else◌,
}
use webmail_engine.Base.Int.{ℤ, pos, pos_part, add64, sub64, mul64, div64, ltb_ℤ, leb_ℤ}
use webmail_engine.Store.Page.{slice}

-- A cursor without a UID has 0 there.
pub record CursorData : Type 0 where
  pub page : ℤ
  pub last_uid : ℕ

pub record PageOfUids : Type 0 where
  pub uids : List ℕ
  pub current_page : ℤ
  pub total_pages : ℤ
  pub has_more : Bool
  pub next_cursor : Option CursorData

abbrev pub clamp_limit : ℤ → ℤ
clamp_limit limit =
    if leb_ℤ limit (pos 0) then pos 50 else if ltb_ℤ (pos 200) limit then pos 200 else limit

-- The loop over `uids` that ends at the first place of the UID.
unfoldable pub position_of : ℕ → List ℕ → Option ℕ
position_of u [] = none
position_of u (v ∷ vs) =
    let rest = position_of u vs in
    if v == u then some 0 else elim rest [ none ↦ none | some i ↦ some (suc i) ]

abbrev pub is_uid : ℕ → Option ℕ → Bool
is_uid u none = false
is_uid u (some v) = v == u

abbrev pub after_position : Option ℕ → ℤ → ℤ
after_position none start = start
after_position (some i) start = pos (suc i)

unfoldable pub start_index : ℤ → CursorData → List ℕ → ℤ
unfolding mul64 sub64 position_of
start_index page_size c uids =
    let start = mul64 c.page page_size in
    let expected = sub64 start (pos 1) in
    if ltb 0 c.last_uid && leb_ℤ (pos 0) expected && ltb_ℤ expected (pos (length uids))
    then (if is_uid c.last_uid (get_elem? uids (pos_part expected))
        then start
        else after_position (position_of c.last_uid uids) start)
    else start

-- A huge folder counts its messages, not the UIDs that were read.
abbrev pub total_count : List ℕ → ℤ → ℤ
total_count uids message_count =
    if ltb_ℤ (pos 50000) message_count then message_count else pos (length uids)

unfoldable pub page_count : ℤ → ℤ → ℤ
unfolding add64 sub64 div64
page_count total limit =
    if ltb_ℤ (pos 0) total then div64 (sub64 (add64 total limit) (pos 1)) limit else pos 1

abbrev pub last_of : List ℕ → Option ℕ
last_of [] = none
last_of (u ∷ []) = some u
last_of (u ∷ v ∷ vs) = last_of (v ∷ vs)

unfoldable pub page_of_slice : ℤ → ℤ → CursorData → Option (List ℕ) → Bool → Option PageOfUids
unfolding add64 page_count
page_of_slice limit total c none more = none
page_of_slice limit total c (some us) false = some (record {
  uids = us;
  current_page = add64 c.page (pos 1);
  total_pages = page_count total limit;
  has_more = false;
  next_cursor = none;
})
page_of_slice limit total c (some us) true = elim (last_of us) [
  | none ↦ none
  | some u ↦ some (record {
    uids = us;
    current_page = add64 c.page (pos 1);
    total_pages = page_count total limit;
    has_more = true;
    next_cursor = some (record { page = add64 c.page (pos 1); last_uid = u });
  })
]

abbrev pub clamp_end : ℤ → ℤ → ℤ
clamp_end total end = if ltb_ℤ total end then total else end

-- `limit` is already clamped; `none` is a panic.
unfoldable pub page_of : ℤ → ℤ → CursorData → List ℕ → Option PageOfUids
unfolding start_index add64 page_count slice page_of_slice
page_of limit message_count c uids =
    let start = start_index limit c uids in
    let end = clamp_end (pos (length uids)) (add64 start limit) in
    let total = total_count uids message_count in
    if leb_ℤ (pos (length uids)) start
    then some (record {
      uids = [];
      current_page = add64 c.page (pos 1);
      total_pages = page_count total limit;
      has_more = false;
      next_cursor = none;
    })
    else page_of_slice limit total c (slice uids start end) (ltb_ℤ end (pos (length uids)))
