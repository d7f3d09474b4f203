-- ===== src/Notifications/Pages.antt =====
-- Reading the notifications page by page (`read` of
-- src/domain/components/notification/notifications-reader.ts).
use be.Prelude.{
  ℕ, suc, ◌<◌, ◌&&◌, ◌≡◌, sym, ◌∙◌, ap, false, some, List, keep, take, length, ◌==◌, arith, Pairs,
  last_of_page, map_option,
}
use be.Store.{Uuid, Notification, World, ok, Platform}
use be.Paging.{
  DateIdCursor, pages, before_date_id, last_first, last_first-IsOrder, last_first_apart,
  before_date_id-cursor, before_date_id_trans, length-ordered, pages-all, map_id, Pairs-map_to,
}
use be.Notifications.Reader.{read}

-- The notifications behind a cursor, the last first.
abbrev pub behind : ⦃p : Platform⦄ → Uuid → DateIdCursor → World → List Notification
behind ⦃p⦄ user cursor w =
    p.order_by (last_first (λ n. n.created_at) (λ n. n.id))
      (keep (λ n. n.user_id == user && before_date_id cursor n.created_at n.id) w.notifications)

module _ ⦃p : Platform⦄ where
  -- Where the notifications have different ids, a client that reads a user’s notifications with a
  -- limit of one or more and asks for the page behind each cursor that it gets comes to the end
  -- within as many pages as there are notifications and one more, and has then seen the
  -- notifications of the user behind the first cursor, each once, the last first and those of one
  -- time by id.
  pub pages-behind :
      (user : Uuid) (limit fuel : ℕ) (cursor : DateIdCursor) (w : World)
      → Pairs (λ m n. (m.id == n.id) ≡ false) w.notifications
      → length w.notifications < fuel
      → pages (λ c. read user (record { cursor = c; limit = suc limit })) fuel cursor w
        ≡ (ok (some (behind user cursor w)), w)
  unfolding read
  pages-behind user limit fuel cursor w distinct enough =
      pages-all (last_first date id) w.notifications (last_first-IsOrder date id)
        (Pairs-map_to (last_first_apart date id) w.notifications distinct) (λ n. n)
        (λ n. record { created_at = p.to_iso_string n.created_at; id = n.id })
        (λ n. n.user_id == user) (λ c n. before_date_id c n.created_at n.id)
        (before_date_id-cursor date id) (before_date_id_trans date id) limit
        (λ c. read user (record { cursor = c; limit = suc limit })) w
        (λ c.
          ap
            (λ rows. (
              ok (record {
                items = rows;
                next_cursor =
                    map_option
                      (λ n. record { created_at = p.to_iso_string n.created_at; id = n.id })
                      (last_of_page rows (suc limit));
              }),
              w,
            ))
            (sym (map_id (take (suc limit) (behind user c w)))))
        fuel cursor
        (ground (
          arith,
          length-ordered (last_first date id) w.notifications
              (λ n. n.user_id == user && before_date_id cursor n.created_at n.id),
        ))
      ∙ ap (λ rows. (ok (some rows), w)) (map_id (behind user cursor w))
    where
      date : Notification → ℕ
      date n = n.created_at

      id : Notification → ℕ
      id n = n.id
