-- ===== src/Gatherings/Repeats.antt =====
-- Reading the gatherings of a range page by page (`read` of
-- src/domain/components/gathering/gatherings-reader.ts), where the cursor is at the end of the range.
use be.Prelude.{ℕ, none, some, true, ◌≡◌, refl, ◌∙◌, ap, fun_ext, arith, str_eq, keep}
use be.Store.{Uuid, Time, World, ok, Platform}
use be.Paging.{Page, DateIdCursor, PaginatedDateRangeInput, pages, pages-stuck}
use be.Gatherings.Types.{ListedGathering}
use be.Gatherings.Queries.{
  from_cursor, in_range, waiting_ids, page_ids, joined, find_by_user_id, find_gatherings,
}
use be.Gatherings.Reader.{read}

module _ ⦃p : Platform⦄ where
  -- The input with another id in the cursor.
  abbrev pub from_id : Uuid → PaginatedDateRangeInput → PaginatedDateRangeInput
  from_id id input = record input {
    cursor = record { created_at = input.cursor.created_at; id = id };
  }

  -- At the end of the range the condition on the cursor is one on its date alone.
  from_cursor-end :
      (input : PaginatedDateRangeInput) (id : Uuid) (time : Time) (g : Uuid)
      → str_eq input.max_date input.cursor.created_at ≡ true
      → from_cursor (from_id id input) time g ≡ from_cursor input time g
  unfolding from_cursor
  from_cursor-end input id time g e = ground arith

  waiting_ids-end :
      (user : Uuid) (input : PaginatedDateRangeInput) (id : Uuid) (w : World)
      → str_eq input.max_date input.cursor.created_at ≡ true
      → waiting_ids user (from_id id input) w ≡ waiting_ids user input w
  unfolding waiting_ids in_range
  waiting_ids-end user input id w e =
      ap (λ q. page_ids input.limit (keep q (joined user w)))
        (fun_ext λ row. ground (arith, from_cursor-end input id row.1.gathering_date row.1.id e))

  pub read-repeats :
      (user : Uuid) (input : PaginatedDateRangeInput) (id : Uuid) (w : World)
      → str_eq input.max_date input.cursor.created_at ≡ true
      → read user (from_id id input) w ≡ read user input w
  unfolding read find_by_user_id find_gatherings
  read-repeats user input id w e = rw (waiting_ids-end user input id w e) refl

  -- Where the cursor of a range of gatherings has the text of the end of the range, and the page
  -- that is read leads to a cursor with that text again, a client that follows the cursors comes
  -- to no end, however many pages it reads.
  pub pages-stuck_read :
      (user : Uuid) (input : PaginatedDateRangeInput) (w : World) (fuel : ℕ)
      (page : Page ListedGathering DateIdCursor) (next : DateIdCursor)
      → str_eq input.max_date input.cursor.created_at ≡ true
      → read user input w ≡ (ok page, w)
      → page.next_cursor ≡ some next
      → next.created_at ≡ input.cursor.created_at
      → pages (λ c. read user (record input { cursor = c })) fuel input.cursor w ≡ (ok none, w)
  pages-stuck_read user input w fuel page next e ran more same =
      pages-stuck (λ c. read user (record input { cursor = c })) w
        (λ c. c.created_at ≡ input.cursor.created_at) (λ c at. (page, next, again c at, more, same))
        fuel input.cursor refl
    where
      again :
          (c : DateIdCursor)
          → c.created_at ≡ input.cursor.created_at
          → read user (record input { cursor = c }) w ≡ (ok page, w)
      again c at =
          ap (λ t. read user (record input { cursor = record { created_at = t; id = c.id } }) w) at
          ∙ read-repeats user input c.id w e
          ∙ ran
