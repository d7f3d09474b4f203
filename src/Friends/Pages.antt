-- ===== src/Friends/Pages.antt =====
-- Reading the friends page by page (`read` of src/domain/components/friend/friends-reader.ts), and
-- whom the list holds.
use be.Prelude.{
  ℕ, String, suc, Bool, ◌<◌, ◌&&◌, ◌||◌, not, ◌≡◌, refl, ap, fun_ext, false, some, List, [], ◌∷◌,
  ◌++◌, map, keep, take, length, ◌==◌, arith, Pairs, str_eq, last_of_page, map_option, one_of,
  some_of,
}
use be.Store.{Uuid, User, Friend, World, ok, Platform, active_users}
use be.Paging.{
  UserCursor, pages, after_user, by_name, by_name-IsOrder, by_name_apart, after_user-cursor,
  after_user_trans, length-ordered, pages-all, Pairs-map_to,
}
use be.Users.Types.{minimal}
use be.Users.Queries.{accepted_ids, is_accepted}
use be.Friends.Reader.{read}

-- Another user, active, whose relation with the user is accepted.
abbrev pub is_friend : Uuid → World → User → Bool
is_friend user w u = not (u.id == user) && one_of (accepted_ids user w.friends) u.id

-- The friends behind a cursor, by name and account id.
abbrev pub behind : ⦃p : Platform⦄ → Uuid → UserCursor → World → List User
behind ⦃p⦄ user cursor w =
    p.order_by (by_name (λ u. u.name) (λ u. u.account_id))
      (keep (λ u. is_friend user w u && after_user cursor u.name u.account_id) (active_users w))

abbrev name : User → String
name u = u.name

abbrev account_id : User → String
account_id u = u.account_id

abbrev accepted_with : Uuid → Uuid → Friend → Bool
accepted_with a b f =
    is_accepted f.status
    && ((f.sender_id == a && f.receiver_id == b) || (f.receiver_id == a && f.sender_id == b))

one_of-append :
    (xs ys : List Uuid) (id : Uuid) → one_of (xs ++ ys) id ≡ (one_of xs id || one_of ys id)
one_of-append [] ys id = refl
one_of-append (x ∷ xs) ys id = ground (arith, one_of-append xs ys id)

receivers :
    (a b : Uuid) (fs : List Friend)
    → one_of (map (λ f. f.receiver_id) (keep (λ f. f.sender_id == a && is_accepted f.status) fs)) b
      ≡ some_of (λ f. f.sender_id == a && f.receiver_id == b && is_accepted f.status) fs
receivers a b [] = refl
receivers a b (f ∷ fs) = ground (arith, receivers a b fs)

senders :
    (a b : Uuid) (fs : List Friend)
    → one_of (map (λ f. f.sender_id) (keep (λ f. f.receiver_id == a && is_accepted f.status) fs)) b
      ≡ some_of (λ f. f.sender_id == b && f.receiver_id == a && is_accepted f.status) fs
senders a b [] = refl
senders a b (f ∷ fs) = ground (arith, senders a b fs)

one_of-accepted_ids :
    (a b : Uuid) (fs : List Friend)
    → one_of (accepted_ids a fs) b ≡ (
        some_of (λ f. f.sender_id == a && f.receiver_id == b && is_accepted f.status) fs
        || some_of (λ f. f.sender_id == b && f.receiver_id == a && is_accepted f.status) fs)
one_of-accepted_ids a b fs = ground (
  arith,
  one_of-append (map (λ f. f.receiver_id) (keep (λ f. f.sender_id == a && is_accepted f.status) fs))
      (map (λ f. f.sender_id) (keep (λ f. f.receiver_id == a && is_accepted f.status) fs)) b,
  receivers a b fs,
  senders a b fs,
)

-- A user belongs to the friends that the list of another user is made of exactly if that other
-- belongs to those of the first.
pub is_friend_comm : (u v : User) (w : World) → is_friend u.id w v ≡ is_friend v.id w u
is_friend_comm u v w =
    ground (arith, one_of-accepted_ids u.id v.id w.friends, one_of-accepted_ids v.id u.id w.friends)

module _ ⦃p : Platform⦄ where
  same_rows :
      (user : Uuid) (w : World) (c : UserCursor)
      → keep
          (λ u.
            not (u.id == user)
            && after_user c u.name u.account_id
            && one_of (accepted_ids user w.friends) u.id)
          (active_users w)
        ≡ keep (λ u. is_friend user w u && after_user c u.name u.account_id) (active_users w)
  same_rows user w c = ap (λ q. keep q (active_users w)) (fun_ext λ u. ground arith)

  -- Where active accounts have different account ids, a client that reads a user’s friends with a
  -- limit of one or more and follows the cursors comes to the end, and has then seen every active
  -- friend behind the first cursor, each once, by name and account id.
  pub pages-friends :
      (user : Uuid) (limit fuel : ℕ) (cursor : UserCursor) (w : World)
      → Pairs (λ u v. str_eq u.account_id v.account_id ≡ false) (active_users w)
      → length (active_users w) < fuel
      → pages (λ c. read user (record { cursor = c; limit = suc limit })) fuel cursor w
        ≡ (ok (some (map minimal (behind user cursor w))), w)
  unfolding read
  pages-friends user limit fuel cursor w distinct enough =
      pages-all (by_name name account_id) (active_users w) (by_name-IsOrder name account_id)
        (Pairs-map_to (by_name_apart name account_id) (active_users w) distinct) minimal
        (λ u. record { name = u.name; account_id = u.account_id }) (is_friend user w)
        (λ c u. after_user c u.name u.account_id) (after_user-cursor name account_id)
        (after_user_trans name account_id) limit
        (λ c. read user (record { cursor = c; limit = suc limit })) w
        (λ c.
          ap
            (λ rows.
              let users =
                map minimal (take (suc limit) (p.order_by (by_name name account_id) rows)) in
              (
                ok (record {
                  items = users;
                  next_cursor =
                      map_option (λ u. record { name = u.name; account_id = u.account_id })
                        (last_of_page users (suc limit));
                }),
                w,
              ))
            (same_rows user w c))
        fuel cursor
        (ground (
          arith,
          length-ordered (by_name name account_id) (active_users w)
              (λ u. is_friend user w u && after_user cursor u.name u.account_id),
        ))
