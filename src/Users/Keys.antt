-- ===== src/Users/Keys.antt =====
-- When writing `deletedAt` or the account id meets a unique key of src/prisma/schema.prisma (`User`).
use be.Prelude.{
  Bool, true, false, not, ◌&&◌, ◌||◌, Option, none, some, List, [], ◌∷◌, ◌≡◌, refl, arith, ◌==◌,
  str_eq, some_of, All, Bool-cases, inl, inr,
}
use be.Store.{Uuid, Time, User, takes_key}
use be.Users.Repository.{user_clash, same_deletion}

-- Withdrawn at that time.
abbrev pub withdrew_at : Time → Option Time → Bool
withdrew_at t none = false
withdrew_at t (some s) = t == s

-- Another account, withdrawn at that time, has the email or the account id of this one.
abbrev pub is_taken : Uuid → Time → List User → Bool
is_taken id t users =
    some_of
      (λ u.
        u.id == id
        && some_of
            (λ v.
              not (v.id == id)
              && (str_eq u.email v.email || str_eq u.account_id v.account_id)
              && withdrew_at t v.deleted_at)
            users)
      users

abbrev pub withdrawn : Time → User → User
withdrawn t u = record u { deleted_at = some t; notification_token = none }

same_deletion-withdrew_at :
    (t : Time) (s : Option Time) → same_deletion (some t) s ≡ withdrew_at t s
unfolding same_deletion
same_deletion-withdrew_at t none = refl
same_deletion-withdrew_at t (some s) = refl

same_deletion-active : (s : Option Time) → same_deletion none s ≡ false
unfolding same_deletion
same_deletion-active s = refl

others_clash :
    (id : Uuid) (t : Time) (u : User) (users : List User)
    → (u.id == id) ≡ true
    → some_of (λ v. not (v.id == id) && user_clash (withdrawn t u) v) users
      ≡ some_of
          (λ v.
            not (v.id == id)
            && (str_eq u.email v.email || str_eq u.account_id v.account_id)
            && withdrew_at t v.deleted_at)
          users
unfolding user_clash
others_clash id t u [] e = refl
others_clash id t u (v ∷ users) e =
    ground (arith, same_deletion-withdrew_at t v.deleted_at, others_clash id t u users e)

rows_clash :
    (id : Uuid) (t : Time) (all rows : List User)
    → some_of
        (λ u. u.id == id && some_of (λ v. not (v.id == id) && user_clash (withdrawn t u) v) all)
        rows
      ≡ some_of
          (λ u.
            u.id == id
            && some_of
                (λ v.
                  not (v.id == id)
                  && (str_eq u.email v.email || str_eq u.account_id v.account_id)
                  && withdrew_at t v.deleted_at)
                all)
          rows
rows_clash id t all [] = refl
rows_clash id t all (u ∷ rows) = ground (arith, others_clash id t u all, rows_clash id t all rows)

-- A withdrawal meets a key exactly if the account's email or account id is taken.
pub takes_key-is_taken :
    (id : Uuid) (t : Time) (users : List User)
    → takes_key user_clash (λ u. u.id == id) (withdrawn t) users ≡ is_taken id t users
takes_key-is_taken id t users = rows_clash id t users users

active_others :
    (id : Uuid) (u : User) (users : List User)
    → (u.id == id) ≡ true
    → u.deleted_at ≡ none
    → some_of (λ v. not (v.id == id) && user_clash u v) users ≡ false
unfolding user_clash
active_others id u [] e active = refl
active_others id u (v ∷ users) e active =
    ground (arith, same_deletion-active v.deleted_at, active_others id u users e active)

active_rows :
    (id : Uuid) (f : User → User) (all rows : List User)
    → All (λ u. (u.id == id) ≡ true → ((f u).id ≡ u.id) × ((f u).deleted_at ≡ none)) rows
    → some_of (λ u. u.id == id && some_of (λ v. not (v.id == id) && user_clash (f u) v) all) rows
      ≡ false
active_rows id f all [] h = refl
active_rows id f all (u ∷ rows) (h, hs) = elim (Bool-cases (u.id == id)) [
  | inl e ↦
      let (same, active) = h e in
      rw e (rw (active_others id (f u) all (ground arith) active) (active_rows id f all rows hs))
  | inr e ↦ rw e (active_rows id f all rows hs)
]

-- An account that is active after the change has no key of another.
pub takes_key-active :
    (id : Uuid) (f : User → User) (users : List User)
    → All (λ u. (u.id == id) ≡ true → ((f u).id ≡ u.id) × ((f u).deleted_at ≡ none)) users
    → takes_key user_clash (λ u. u.id == id) f users ≡ false
takes_key-active id f users h = active_rows id f users users h
