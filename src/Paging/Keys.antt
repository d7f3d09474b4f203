-- ===== src/Paging/Keys.antt =====
-- The conditions on a cursor and the orders that the repositories share: by name and account id, and
-- by date and id.
use be.Prelude.{
  String, Bool, ◌&&◌, ◌||◌, ◌==◌, str_eq, ltb, asc, desc, then_by, IsOrder, ◌≡◌, true, false, arith,
  asc-IsOrder, desc-IsOrder, then_by-IsOrder, key-IsOrder, str_eq_iff, before_trans,
}
use be.Store.{Uuid, Time, Platform}
use be.Paging.Inputs.{UserCursor, DateIdCursor}

module _ ⦃p : Platform⦄ where
  -- `name > cursor.name OR (name = cursor.name AND account_id > cursor.accountId)`
  unfoldable pub after_user : UserCursor → String → String → Bool
  after_user cursor name account_id =
      p.text_before cursor.name name
      || (str_eq name cursor.name && p.text_before cursor.account_id account_id)

  -- `ORDER BY name, account_id`
  unfoldable pub by_name : {A : Type 0} → (A → String) → (A → String) → A → A → Bool
  by_name name account_id =
      then_by (λ x y. p.text_before (name x) (name y))
        (λ x y. p.text_before (account_id x) (account_id y))

  -- `date < cursor.createdAt OR (date = cursor.createdAt AND id > cursor.id)`
  unfoldable pub before_date_id : DateIdCursor → Time → Uuid → Bool
  before_date_id cursor time id =
      ltb time (p.date cursor.created_at) || (time == p.date cursor.created_at && ltb cursor.id id)

-- `ORDER BY date DESC, id ASC`
unfoldable pub last_first : {A : Type 0} → (A → Time) → (A → Uuid) → A → A → Bool
last_first date id = then_by (desc date) (asc id)

pub last_first-IsOrder :
    {A : Type 0} (date : A → Time) (id : A → Uuid) → IsOrder (last_first date id)
unfolding last_first
last_first-IsOrder date id =
    then_by-IsOrder (desc date) (asc id) (desc-IsOrder date) (asc-IsOrder id)

-- Rows with different ids do not tie.
pub last_first_apart :
    {A : Type 0} (date : A → Time) (id : A → Uuid) (x y : A)
    → (id x == id y) ≡ false
    → (last_first date id x y || last_first date id y x) ≡ true
unfolding last_first
last_first_apart date id x y e = ground arith

module _ ⦃p : Platform⦄ where
  pub by_name-IsOrder :
      {A : Type 0} (name account_id : A → String) → IsOrder (by_name name account_id)
  unfolding by_name
  by_name-IsOrder name account_id =
      then_by-IsOrder _ _ (key-IsOrder name p.text_before p.text_before_order)
        (key-IsOrder account_id p.text_before p.text_before_order)

  -- Rows with different account ids do not tie.
  pub by_name_apart :
      {A : Type 0} (name account_id : A → String) (x y : A)
      → str_eq (account_id x) (account_id y) ≡ false
      → (by_name name account_id x y || by_name name account_id y x) ≡ true
  unfolding by_name
  by_name_apart name account_id x y e = ground (
    arith,
    p.text_before_total (account_id x) (account_id y),
    str_eq_iff (account_id x) (account_id y),
  )

  -- The condition on the cursor of a row is the order.
  pub before_date_id-cursor :
      {A : Type 0} (date : A → Time) (id : A → Uuid) (x y : A)
      → before_date_id (record { created_at = p.to_iso_string (date x); id = id x }) (date y) (id y)
        ≡ last_first date id x y
  unfolding before_date_id last_first
  before_date_id-cursor date id x y = ground (arith, p.date_to_iso_string (date x))

  pub before_date_id_trans :
      {A : Type 0} (date : A → Time) (id : A → Uuid) (c : DateIdCursor) (x y : A)
      → before_date_id c (date x) (id x) ≡ true
      → last_first date id x y ≡ true
      → before_date_id c (date y) (id y) ≡ true
  unfolding before_date_id last_first
  before_date_id_trans date id c x y e f = ground arith

  pub after_user-cursor :
      {A : Type 0} (name account_id : A → String) (x y : A)
      → after_user (record { name = name x; account_id = account_id x }) (name y) (account_id y)
        ≡ by_name name account_id x y
  unfolding after_user by_name
  after_user-cursor name account_id x y = ground (
    arith,
    p.text_before_total (name x) (name y),
    str_eq_iff (name y) (name x),
    p.text_before_order.asym (name x) (name y),
    p.text_before_order.asym (name x) (name x),
  )

  pub after_user_trans :
      {A : Type 0} (name account_id : A → String) (c : UserCursor) (x y : A)
      → after_user c (name x) (account_id x) ≡ true
      → by_name name account_id x y ≡ true
      → after_user c (name y) (account_id y) ≡ true
  unfolding after_user by_name
  after_user_trans name account_id c x y e f = ground (
    arith,
    str_eq_iff (name x) c.name,
    str_eq_iff (name y) c.name,
    p.text_before_total (name x) (name y),
    before_trans p.text_before p.text_before_order c.name (name x) (name y),
    before_trans p.text_before p.text_before_order c.account_id (account_id x) (account_id y),
  )
