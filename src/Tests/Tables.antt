-- ===== src/Tests/Tables.antt =====
-- A platform on lists, which shows that what the model assumes of the code outside the repository
-- can hold together.
use be.Prelude.{
  ℕ, ◌+◌, ◌*◌, ap, ◌≡◌, refl, arith, Bool, true, false, not, Option, none, some, List, [], ◌∷◌,
  if◌then◌else◌, keep, some_of, how_many, replace, All, Bool-cases, Option-cases, inl, inr, leb,
  is_some,
}
use mathlib.Core.List.{Memᴰ}
use be.Store.{
  Time, Error, IsAtLeast, Platform, World, ok, err, takes_key, unique_violation, record_not_found,
  Action, settled, rolled_back,
}
use mathlib.Core.Path.{subst}
use Prim.Native.String.{String, count}
use text.Mathlib.Text.{find?}
use be.Tests.Sorting.{
  sorted, sorted-Permᴰ, sorted-IsSorted, text_less, text_less-IsOrder, text_less-total, tally,
  count-tally,
}

unfoldable pub first_of : {A : Type 0} → (A → Bool) → List A → Option A
first_of q [] = none
first_of q (x ∷ xs) = if q x then some x else first_of q xs

pub first_of-some :
    {A : Type 0} (q : A → Bool) (t : List A) (r : A)
    → first_of q t ≡ some r
    → Memᴰ r t × (q r ≡ true)
unfolding first_of
first_of-some q [] r e = cc
first_of-some q (x ∷ t) r e = elim (Bool-cases (q x)) [
  | inl fit ↦
      let same : x ≡ r = ground arith in
      subst (λ z. Memᴰ z (x ∷ t) × (q z ≡ true)) same (Memᴰ.head refl, fit)
  | inr unfit ↦ let (m, h) = first_of-some q t r (ground arith) in (Memᴰ.tail m, h)
]

pub first_of-none :
    {A : Type 0} (q : A → Bool) (t : List A) → first_of q t ≡ none → All (λ r. q r ≡ false) t
unfolding first_of
first_of-none q [] e = tt
first_of-none q (x ∷ t) e = ground (arith, first_of-none q t)

is_at_least : Option Time → Option Time → Bool
is_at_least none t = true
is_at_least (some s) none = false
is_at_least (some s) (some t) = leb t s

unfoldable pub latest_of : {A : Type 0} → (A → Bool) → (A → Option Time) → List A → Option A
unfolding is_at_least
latest_of q key [] = none
latest_of q key (x ∷ xs) =
    let rest = latest_of q key xs in
    if q x
    then elim rest [
      | none ↦ some x
      | some y ↦ if is_at_least (key x) (key y) then some x else some y
    ]
    else rest

pub latest_of-none :
    {A : Type 0} (q : A → Bool) (key : A → Option Time) (t : List A)
    → latest_of q key t ≡ none
    → All (λ r. q r ≡ false) t
unfolding latest_of
latest_of-none q key [] e = tt
latest_of-none q key (x ∷ t) e = elim (Bool-cases (q x)) [
  | inl fit ↦ elim (Option-cases (latest_of q key t)) [
    | inl rest ↦ ground arith
    | inr (y, rest) ↦ ground arith
  ]
  | inr unfit ↦ (unfit, latest_of-none q key t (ground arith))
]

IsAtLeast-refl : (s : Option Time) → IsAtLeast s s
IsAtLeast-refl none = tt
IsAtLeast-refl (some s) = ground arith

IsAtLeast-trans : (s t u : Option Time) → IsAtLeast s t → IsAtLeast t u → IsAtLeast s u
IsAtLeast-trans none t u h k = tt
IsAtLeast-trans (some s) none u h k = elim h [ ]
IsAtLeast-trans (some s) (some t) none h k = elim k [ ]
IsAtLeast-trans (some s) (some t) (some u) h k = ground arith

is_at_least-true : (s t : Option Time) → is_at_least s t ≡ true → IsAtLeast s t
unfolding is_at_least
is_at_least-true none t e = tt
is_at_least-true (some s) none e = cc
is_at_least-true (some s) (some t) e = ground arith

is_at_least-false : (s t : Option Time) → is_at_least s t ≡ false → IsAtLeast t s
unfolding is_at_least
is_at_least-false none t e = cc
is_at_least-false (some s) none e = tt
is_at_least-false (some s) (some t) e = ground arith

module _ {A : Type 0} (q : A → Bool) (key : A → Option Time) where
  -- Every row that fits comes after this time.
  abbrev IsLast : Option Time → List A → Type 0
  IsLast s t = All (λ r. q r ≡ true → IsAtLeast s (key r)) t

  IsLast-later : (s u : Option Time) (t : List A) → IsAtLeast s u → IsLast u t → IsLast s t
  IsLast-later s u [] h k = tt
  IsLast-later s u (x ∷ t) h (k, ks) =
      (λ e. IsAtLeast-trans s u (key x) h (k e), IsLast-later s u t h ks)

  IsLast-none : (s : Option Time) (t : List A) → All (λ r. q r ≡ false) t → IsLast s t
  IsLast-none s [] h = tt
  IsLast-none s (x ∷ t) (h, hs) = (λ e. cc, IsLast-none s t hs)

  pub latest_of-some :
      (t : List A) (r : A) → latest_of q key t ≡ some r → Memᴰ r t × (q r ≡ true) × IsLast (key r) t
  unfolding latest_of
  latest_of-some [] r e = cc
  latest_of-some (x ∷ t) r e = elim (Bool-cases (q x)) [
    | inr unfit ↦
        let (m, fits, later) = latest_of-some t r (ground arith) in
        (Memᴰ.tail m, fits, (λ e. ground arith, later))
    | inl fit ↦ elim (Option-cases (latest_of q key t)) [
      | inl rest ↦
          let same : x ≡ r = ground arith in
          subst (λ z. Memᴰ z (x ∷ t) × (q z ≡ true) × IsLast (key z) (x ∷ t)) same
            (
              Memᴰ.head refl,
              fit,
              (λ _. IsAtLeast-refl (key x), IsLast-none (key x) t (latest_of-none q key t rest)),
            )
      | inr (y, rest) ↦
          let (m, fits, later) = latest_of-some t y rest in
          elim (Bool-cases (is_at_least (key x) (key y))) [
            | inl before ↦
                let same : x ≡ r = ground arith in
                subst (λ z. Memᴰ z (x ∷ t) × (q z ≡ true) × IsLast (key z) (x ∷ t)) same
                  (
                    Memᴰ.head refl,
                    fit,
                    (
                      λ _. IsAtLeast-refl (key x),
                      IsLast-later (key x) (key y) t (is_at_least-true (key x) (key y) before)
                          later,
                    ),
                  )
            | inr after ↦
                let same : y ≡ r = ground arith in
                subst (λ z. Memᴰ z (x ∷ t) × (q z ≡ true) × IsLast (key z) (x ∷ t)) same
                  (Memᴰ.tail m, fits, (λ _. is_at_least-false (key x) (key y) after, later))
          ]
    ]
  ]

-- The rows are added one by one, unless one of them clashes.
unfoldable pub added : {A : Type 0} → (A → A → Bool) → List A → List A → Option (List A)
added clash [] t = some t
added clash (r ∷ rs) t =
    let rest = added clash rs (r ∷ t) in if some_of (clash r) t then none else rest

unfoldable pub list_transactional : {A : Type 0} → Action A → Action A
list_transactional m w = settled w (m w)

pub list_transactional_ok :
    {A : Type 0} (m : Action A) (w w' : World) (a : A)
    → m w ≡ (ok a, w')
    → list_transactional m w ≡ (ok a, w')
unfolding list_transactional
list_transactional_ok m w w' a e = ap (settled w) e

pub list_transactional_err :
    {A : Type 0} (m : Action A) (w w' : World) (e : Error)
    → m w ≡ (err e, w')
    → list_transactional m w ≡ (err e, rolled_back w w')
unfolding list_transactional
list_transactional_err m w w' e h = ap (settled w) h

pub add_injective : (m n : ℕ) → 1000 + m ≡ 1000 + n → m ≡ n
add_injective m n e = ground arith

unfoldable pub contains : String → String → Bool
contains s t = is_some (find? s t)

-- The clock reads a second more each time, and the identifiers count up from 1000. A token is the text of how long it
-- is valid, and every token is one of user 1 on the device "phone".
instance unfoldable pub tables : Platform
unfolding sorted text_less tally contains first_of latest_of added list_transactional
tables = record {
  find_first = first_of;
  find_first_some = first_of-some;
  find_first_none = first_of-none;
  find_latest = latest_of;
  find_latest_some = latest_of-some;
  find_latest_none = latest_of-none;
  find_many = keep;
  find_many_lem = λ q t. refl;
  count = how_many;
  count_lem = λ q t. refl;
  order_by = sorted;
  order_by_perm = sorted-Permᴰ;
  order_by_sorted = λ before t o. sorted-IsSorted before o t;
  text_before = text_less;
  text_before_order = text_less-IsOrder;
  text_before_total = text_less-total;
  like = contains;
  date = count;
  to_iso_string = tally;
  date_to_iso_string = count-tally;
  create = λ clash r t. if some_of (clash r) t then none else some (r ∷ t);
  create_lem = λ clash r t. refl;
  create_many = added;
  create_many_nil = λ clash t. refl;
  create_many_cons = λ clash r rs t. refl;
  update_many = replace;
  update_many_lem = λ q f t. refl;
  update = λ q f t. if some_of q t then some (replace q f t) else none;
  update_lem = λ q f t. refl;
  update_unique = λ clash q f t.
      if not (some_of q t)
      then err record_not_found
      else if takes_key clash q f t
      then err unique_violation
      else ok (replace q f t);
  update_unique_lem = λ clash q f t. refl;
  delete_many = λ q t. keep (λ r. not (q r)) t;
  delete_many_lem = λ q t. refl;
  delete = λ q t. if some_of q t then some (keep (λ r. not (q r)) t) else none;
  delete_lem = λ q t. refl;
  transactional = list_transactional;
  transactional_ok = list_transactional_ok;
  transactional_err = list_transactional_err;
  clock = λ n. 1000 * n;
  uuid = λ n. 1000 + n;
  uuid_injective = add_injective;
  sign = λ payload expires_in iat. expires_in;
  verify = λ token time. some (record { user_id = 1; device_id = "phone" });
  access_token_expiration = "1h";
  refresh_token_expiration = "30d";
  oauth_user_info =
      λ provider token. some (record { email = "a@b.c"; name = "a"; provider = provider });
  revokes = λ _. true;
  is_test = true;
}
