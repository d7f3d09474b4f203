-- ===== src/Store/Outside.antt =====
-- What the code stands on and does not implement: the tables of the database client (Prisma over
-- PostgreSQL), transactions, the clock, the generator of UUIDs and JSON web tokens. Each is an
-- operation with the documented behaviour that the code relies on.
use be.Prelude.{
  ℕ, ◌≤◌, String, ◌≡◌, Bool, true, false, not, Option, none, some, List, [], ◌∷◌, if◌then◌else◌,
  keep, some_of, ◌&&◌, how_many, replace, All, IsOrder, IsSorted,
}
use mathlib.Core.List.{Memᴰ, Permᴰ}
use be.Store.Rows.{Uuid, Time, Provider}
use be.Store.Errors.{Error, UserInfo, unique_violation, record_not_found}
use be.Store.State.{World, rolled_back, Result, ok, err, Action}

pub record TokenPayload : Type 0 where
  pub user_id : Uuid
  pub device_id : String

-- The order of nulls first, then the times from the last on.
abbrev pub IsAtLeast : Option Time → Option Time → Type 0
IsAtLeast none _ = Unit
IsAtLeast (some s) none = ⊥
IsAtLeast (some s) (some t) = t ≤ s

-- A row that fits would, once changed, have a unique key of another row.
abbrev pub takes_key :
    {Row : Type 0} → (Row → Row → Bool) → (Row → Bool) → (Row → Row) → List Row → Bool
takes_key clash p f t = some_of (λ r. p r && some_of (λ s. not (p s) && clash (f r) s) t) t

pub record Platform : Type 1 where
  -- `findFirst` returns some row that fits, or null where none does.
  pub find_first : {Row : Type 0} → (Row → Bool) → List Row → Option Row
  pub find_first_some :
      {Row : Type 0} (p : Row → Bool) (t : List Row) (r : Row)
      → find_first p t ≡ some r
      → Memᴰ r t × (p r ≡ true)
  pub find_first_none :
      {Row : Type 0} (p : Row → Bool) (t : List Row)
      → find_first p t ≡ none
      → All (λ r. p r ≡ false) t
  -- `findFirst` ordered by a time that may be null, the last first: null comes before every time.
  pub find_latest : {Row : Type 0} → (Row → Bool) → (Row → Option Time) → List Row → Option Row
  pub find_latest_some :
      {Row : Type 0} (q : Row → Bool) (key : Row → Option Time) (t : List Row) (r : Row)
      → find_latest q key t ≡ some r
      → Memᴰ r t × (q r ≡ true) × All (λ s. q s ≡ true → IsAtLeast (key r) (key s)) t
  pub find_latest_none :
      {Row : Type 0} (q : Row → Bool) (key : Row → Option Time) (t : List Row)
      → find_latest q key t ≡ none
      → All (λ r. q r ≡ false) t
  -- `findMany` and `count` read the rows that fit.
  pub find_many : {Row : Type 0} → (Row → Bool) → List Row → List Row
  pub find_many_lem : {Row : Type 0} (p : Row → Bool) (t : List Row) → find_many p t ≡ keep p t
  pub count : {Row : Type 0} → (Row → Bool) → List Row → ℕ
  pub count_lem : {Row : Type 0} (p : Row → Bool) (t : List Row) → count p t ≡ how_many p t
  -- `ORDER BY`: the rows in an order in which none stands behind one that it comes before.
  pub order_by : {Row : Type 0} → (Row → Row → Bool) → List Row → List Row
  pub order_by_perm :
      {Row : Type 0} (before : Row → Row → Bool) (t : List Row) → Permᴰ (order_by before t) t
  pub order_by_sorted :
      {Row : Type 0} (before : Row → Row → Bool) (t : List Row)
      → IsOrder before
      → IsSorted before (order_by before t)
  -- The collation of the columns of text, a strict order in which different texts do not tie, and
  -- `LIKE`.
  pub text_before : String → String → Bool
  pub text_before_order : IsOrder text_before
  pub text_before_total : (s t : String) → text_before s t ≡ false → text_before t s ≡ false → s ≡ t
  pub like : String → String → Bool
  -- `new Date(text)` and `toISOString`, which writes a time so that it is read back.
  pub date : String → Time
  pub to_iso_string : Time → String
  pub date_to_iso_string : (t : Time) → date (to_iso_string t) ≡ t
  -- `create` adds a row, unless a stored row has one of its unique keys; the first argument says
  -- when two rows do.
  pub create : {Row : Type 0} → (Row → Row → Bool) → Row → List Row → Option (List Row)
  pub create_lem :
      {Row : Type 0} (clash : Row → Row → Bool) (r : Row) (t : List Row)
      → create clash r t ≡ (if some_of (clash r) t then none else some (r ∷ t))
  -- `createMany` adds all the rows or none.
  pub create_many : {Row : Type 0} → (Row → Row → Bool) → List Row → List Row → Option (List Row)
  pub create_many_nil :
      {Row : Type 0} (clash : Row → Row → Bool) (t : List Row) → create_many clash [] t ≡ some t
  pub create_many_cons :
      {Row : Type 0} (clash : Row → Row → Bool) (r : Row) (rs t : List Row)
      → create_many clash (r ∷ rs) t
        ≡ (if some_of (clash r) t then none else create_many clash rs (r ∷ t))
  -- `updateMany` and `deleteMany` write the rows that fit; `update` and `delete` fail where there is
  -- none.
  pub update_many : {Row : Type 0} → (Row → Bool) → (Row → Row) → List Row → List Row
  pub update_many_lem :
      {Row : Type 0} (p : Row → Bool) (f : Row → Row) (t : List Row)
      → update_many p f t ≡ replace p f t
  pub update : {Row : Type 0} → (Row → Bool) → (Row → Row) → List Row → Option (List Row)
  pub update_lem :
      {Row : Type 0} (p : Row → Bool) (f : Row → Row) (t : List Row)
      → update p f t ≡ (if some_of p t then some (replace p f t) else none)
  -- `update` of a column that is part of a unique key: it fails too where another row has the key.
  -- The one above is for the columns that are in none.
  pub update_unique :
      {Row : Type 0}
      → (Row → Row → Bool)
      → (Row → Bool)
      → (Row → Row)
      → List Row
      → Result (List Row)
  pub update_unique_lem :
      {Row : Type 0} (clash : Row → Row → Bool) (p : Row → Bool) (f : Row → Row) (t : List Row)
      → update_unique clash p f t ≡ (
          if not (some_of p t)
          then err record_not_found
          else if takes_key clash p f t
          then err unique_violation
          else ok (replace p f t))
  pub delete_many : {Row : Type 0} → (Row → Bool) → List Row → List Row
  pub delete_many_lem :
      {Row : Type 0} (p : Row → Bool) (t : List Row) → delete_many p t ≡ keep (λ r. not (p r)) t
  pub delete : {Row : Type 0} → (Row → Bool) → List Row → Option (List Row)
  pub delete_lem :
      {Row : Type 0} (p : Row → Bool) (t : List Row)
      → delete p t ≡ (if some_of p t then some (keep (λ r. not (p r)) t) else none)
  -- A transaction that throws is rolled back.
  pub transactional : {A : Type 0} → Action A → Action A
  pub transactional_ok :
      {A : Type 0} (m : Action A) (w w' : World) (a : A)
      → m w ≡ (ok a, w')
      → transactional m w ≡ (ok a, w')
  pub transactional_err :
      {A : Type 0} (m : Action A) (w w' : World) (e : Error)
      → m w ≡ (err e, w')
      → transactional m w ≡ (err e, rolled_back w w')
  -- The n-th reading of the clock and the n-th UUID.
  pub clock : ℕ → Time
  pub uuid : ℕ → Uuid
  pub uuid_injective : (m n : ℕ) → uuid m ≡ uuid n → m ≡ n
  -- A token states the payload, how long it is valid and when it was signed.
  pub sign : TokenPayload → String → Time → String
  pub verify : String → Time → Option TokenPayload
  -- `ACCESS_TOKEN_EXPIRE` and `REFRESH_TOKEN_EXPIRE`
  pub access_token_expiration : String
  pub refresh_token_expiration : String
  -- What the OAuth provider answers for a token, if it answers.
  pub oauth_user_info : Provider → String → Option UserInfo
  -- Whether Apple revokes an authorization.
  pub revokes : String → Bool
  -- `process.env.NODE_ENV === 'test'`
  pub is_test : Bool
