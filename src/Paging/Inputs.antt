-- ===== src/Paging/Inputs.antt =====
-- The inputs of src/shared/types/index.ts and the page that the readers return.
use be.Prelude.{ℕ, String, Option, List}
use be.Store.{Uuid}

pub data Order : Type 0 where
  desc asc : Order

pub record UserCursor : Type 0 where
  pub name : String
  pub account_id : String

pub record UserPaginationInput : Type 0 where
  pub cursor : UserCursor
  pub limit : ℕ

pub record PaginationInput : Type 0 where
  pub cursor : String
  pub limit : ℕ

pub record DateIdCursor : Type 0 where
  pub created_at : String
  pub id : Uuid

pub record DateIdPaginationInput : Type 0 where
  pub cursor : DateIdCursor
  pub limit : ℕ

pub record PaginatedDateRangeInput : Type 0 where
  pub cursor : DateIdCursor
  pub limit : ℕ
  pub min_date : String
  pub max_date : String

-- `{ users, nextCursor }`, `{ feeds, nextCursor }` and so on.
pub record Page (A C : Type 0) : Type 0 where
  pub items : List A
  pub next_cursor : Option C
