-- ===== src/Notifications/Reading.antt =====
-- Reading and deleting in src/domain/components/notification/notifications.service.ts.
use be.Prelude.{
  Bool, not, ◌&&◌, some, List, [], ◌∷◌, ◌≡◌, refl, arith, ◌==◌, how_many, is_some, replace, keep,
  map, some_of, false,
}
use be.Store.{Uuid, Time, Notification, World, ok, Platform}
use be.Notifications.Service.{read_all, delete, delete_all}

abbrev pub is_unread : Uuid → Notification → Bool
is_unread user n = n.user_id == user && not (is_some n.read_at)

abbrev read : Time → Notification → Notification
read t n = record n { read_at = some t }

unread_after :
    (user : Uuid) (t : Time) (table : List Notification)
    → how_many (is_unread user) (replace (is_unread user) (read t) table) ≡ 0
unread_after user t [] = refl
unread_after user t (n ∷ table) = ground (arith, unread_after user t table)

others_after :
    (user : Uuid) (t : Time) (table : List Notification)
    → keep (λ n. not (n.user_id == user)) (replace (is_unread user) (read t) table)
      ≡ keep (λ n. not (n.user_id == user)) table
others_after user t [] = refl
others_after user t (n ∷ table) = ground (arith, others_after user t table)

ids_after :
    (user : Uuid) (t : Time) (table : List Notification)
    → map (λ n. n.id) (replace (is_unread user) (read t) table) ≡ map (λ n. n.id) table
ids_after user t [] = refl
ids_after user t (n ∷ table) = ground (arith, ids_after user t table)

-- A user without notifications has none to read.
none_read :
    (user : Uuid) (t : Time) (table : List Notification)
    → some_of (λ n. n.user_id == user) table ≡ false
    → replace (is_unread user) (read t) table ≡ table
none_read user t [] e = refl
none_read user t (n ∷ table) e = ground (arith, none_read user t table)

module _ ⦃p : Platform⦄ where
  -- Reading all notifications of a user returns, leaves none of the user's unread and those of
  -- other users as they were.
  pub read_all-unread :
      (user : Uuid) (w : World)
      → let (r, w') = read_all user w in
        (r ≡ ok tt)
        × (how_many (is_unread user) w'.notifications ≡ 0)
        × (keep (λ n. not (n.user_id == user)) w'.notifications
            ≡ keep (λ n. not (n.user_id == user)) w.notifications)
  unfolding read_all
  read_all-unread user w = ground (
    arith,
    p.update_many_lem (is_unread user) (read (p.clock w.ticks)) w.notifications,
    unread_after user (p.clock w.ticks) w.notifications,
    others_after user (p.clock w.ticks) w.notifications,
  )

  -- Where no notification belongs to a user whose id is the one of the notification, delete
  -- returns and the notification stays, unread or read as before; deleteAll returns, every
  -- notification stays, and none of the user’s is unread.
  pub delete-notifications :
      (id user : Uuid) (w : World)
      → some_of (λ n. n.user_id == id) w.notifications ≡ false
      → ((delete id w).0 ≡ ok tt)
        × ((delete id w).1.notifications ≡ w.notifications)
        × ((delete_all user w).0 ≡ ok tt)
        × (map (λ n. n.id) (delete_all user w).1.notifications ≡ map (λ n. n.id) w.notifications)
        × (how_many (is_unread user) (delete_all user w).1.notifications ≡ 0)
  unfolding delete delete_all
  delete-notifications id user w other = ground (
    arith,
    p.update_many_lem (is_unread id) (read (p.clock w.ticks)) w.notifications,
    p.update_many_lem (is_unread user) (read (p.clock w.ticks)) w.notifications,
    none_read id (p.clock w.ticks) w.notifications,
    ids_after user (p.clock w.ticks) w.notifications,
    unread_after user (p.clock w.ticks) w.notifications,
  )
