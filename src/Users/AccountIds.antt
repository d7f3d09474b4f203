-- ===== src/Users/AccountIds.antt =====
-- The tests on account ids of src/domain/services/user/users.service.ts and of
-- src/domain/services/auth/auth.service.ts.
use be.Prelude.{
  ◌+◌, ◌*◌, String, Bool, true, not, ◌&&◌, Option, none, some, ◌≡◌, arith, ◌==◌, if◌then◌else◌,
  some_of, replace, suc, str_eq, ltb, how_many, ◌≤◌, Option-cases, inl, inr, List, [], ◌∷◌, refl,
  All-of_Memᴰ,
}
use mathlib.Core.List.{Memᴰ}
use be.Store.{
  Uuid, Time, User, World, ok, err, Platform, unprocessable_entity, duplicate_account_id,
  find_first_unique, some_of-Memᴰ, some_of-none, some_of_unique, some_of-unfit, Memᴰ-unique,
}
use be.Dates.{day}
use be.Dates.Limits.{calc_date_diff-is_below}
use be.Users.Repository.{is_active, user_clash}
use be.Users.Keys.{takes_key-active}
use be.Users.Service.{
  change_account_id, check_account_id_change_cooldown, check_duplicate_account_id,
}
use be.Auth.Service as AuthService

-- What an account has is kept for it: it is not withdrawn, or was less than 30 days ago.
abbrev pub is_kept : Time → Option Time → Bool
is_kept today none = true
is_kept today (some deleted_at) = ltb today (deleted_at + 30 * day)

active_fewer :
    (id : Uuid) (users : List User)
    → how_many (is_active id) users ≤ how_many (λ u. u.id == id) users
active_fewer id [] = omega arith
active_fewer id (u ∷ users) = ground (arith, active_fewer id users)

module _ ⦃p : Platform⦄ where
  -- The tests of the two services for a taken account id give the same result in every state.
  pub check_duplicate_account_id-same :
      (account_id : String) (today : Time) (w : World)
      → check_duplicate_account_id account_id today w
        ≡ AuthService.check_duplicate_account_id account_id today w
  unfolding check_duplicate_account_id AuthService.check_duplicate_account_id AuthService.is_recent
  check_duplicate_account_id-same account_id today w = ground arith

  -- An account that holds the account id: one that is not withdrawn, or was less than 30 days ago.
  abbrev pub holds : String → Time → User → Bool
  holds account_id today u = str_eq u.account_id account_id && is_kept today u.deleted_at

  kept_verdict :
      (account_id : String) (today : Time) (w : World) (u : User)
      → p.find_first (λ u. str_eq u.account_id account_id) w.users ≡ some u
      → some_of (holds account_id today) w.users ≡ is_kept today u.deleted_at
      → check_duplicate_account_id account_id today w
        ≡ (if some_of (holds account_id today) w.users then err duplicate_account_id else ok tt, w)
  unfolding check_duplicate_account_id
  kept_verdict account_id today w u found told = elim (Option-cases u.deleted_at) [
    | inl active ↦ ground arith
    | inr (t, withdrawn) ↦ ground (arith, calc_date_diff-is_below today t 30)
  ]

  -- Where one row at most has the account id, the test refuses what is held.
  pub check_duplicate_account_id-verdict :
      (account_id : String) (today : Time) (w : World)
      → how_many (λ u. str_eq u.account_id account_id) w.users ≤ 1
      → check_duplicate_account_id account_id today w
        ≡ (if some_of (holds account_id today) w.users then err duplicate_account_id else ok tt, w)
  unfolding check_duplicate_account_id
  check_duplicate_account_id-verdict account_id today w one =
      elim (Option-cases (p.find_first (λ u. str_eq u.account_id account_id) w.users)) [
        | inl missing ↦ ground (
          arith,
          some_of-unfit (λ u. str_eq u.account_id account_id) (λ u. is_kept today u.deleted_at)
              w.users
              (some_of-none (λ u. str_eq u.account_id account_id) w.users
                (p.find_first_none (λ u. str_eq u.account_id account_id) w.users missing)),
        )
        | inr (u, found) ↦
            let (m, fits) =
              p.find_first_some (λ u. str_eq u.account_id account_id) w.users u found in
            let told =
              some_of_unique (λ u. str_eq u.account_id account_id) (λ u. is_kept today u.deleted_at)
                w.users u one m fits in
            kept_verdict account_id today w u found told
      ]

  -- The account id was changed since the registration, less than 30 days before.
  abbrev pub cools_down_until : Time → User → Bool
  cools_down_until today u =
      not (u.created_at == u.updated_at) && ltb today (u.updated_at + 30 * day)

  -- One row at most is active, and the active one is the only one.
  active_once :
      (id : Uuid) (users : List User)
      → how_many (λ u. u.id == id) users ≤ 1
      → how_many (is_active id) users ≤ 1
  active_once id users one = omega (arith, active_fewer id users)

  active_only :
      (id : Uuid) (v u : User) (users : List User)
      → how_many (λ u. u.id == id) users ≤ 1
      → Memᴰ v users
      → (v.id == id) ≡ true
      → Memᴰ u users
      → is_active id u ≡ true
      → v.deleted_at ≡ none
  active_only id v u users one n same m e =
      let eq = Memᴰ-unique (λ u. u.id == id) users v u one n same m (ground arith) in
      ground (arith, Option-cases u.deleted_at)

  user_exists : (id : Uuid) (u : User) → is_active id u ≡ true → (u.id == id) ≡ true
  user_exists id u e = ground arith

  -- For the only account with the id, if it is active, and where one account at most has the new
  -- account id, the change is refused if the account id was changed since the registration and
  -- less than 30 days before, or if an account holds the new one that is active or was withdrawn
  -- less than 30 days ago; otherwise the account has the new account id.
  pub change_account_id-verdict :
      (id : Uuid) (account_id : String) (today : Time) (u : User) (w : World)
      → how_many (λ u. u.id == id) w.users ≤ 1
      → Memᴰ u w.users
      → is_active id u ≡ true
      → how_many (λ u. str_eq u.account_id account_id) w.users ≤ 1
      → change_account_id id account_id today w ≡ (
          if cools_down_until today u
          then (err unprocessable_entity, w)
          else if some_of (holds account_id (p.clock w.ticks)) w.users
          then (err duplicate_account_id, record w { ticks = suc w.ticks })
          else (
            ok tt,
            record w {
              users =
                  replace
                    (λ u. u.id == id)
                    (λ u. record u { updated_at = p.clock (suc w.ticks); account_id = account_id })
                    w.users;
              ticks = suc (suc w.ticks);
            },
          ))
  unfolding change_account_id check_account_id_change_cooldown
  change_account_id-verdict id account_id today u w one m e unique = ground (
    arith,
    find_first_unique (is_active id) w.users u (active_once id w.users one) m e,
    calc_date_diff-is_below today u.updated_at 30,
    check_duplicate_account_id-verdict account_id (p.clock w.ticks)
        (record w { ticks = suc w.ticks }) unique,
    some_of-Memᴰ (λ u. u.id == id) w.users u m (user_exists id u e),
    p.update_unique_lem user_clash (λ u. u.id == id)
        (λ u. record u { updated_at = p.clock (suc w.ticks); account_id = account_id }) w.users,
    takes_key-active id
        (λ u. record u { updated_at = p.clock (suc w.ticks); account_id = account_id }) w.users
        (All-of_Memᴰ w.users λ v n same. (refl, active_only id v u w.users one n same m e)),
  )
