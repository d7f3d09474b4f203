-- ===== src/Users/Searching.antt =====
-- Whom the search of users finds, and with which status (`search` of
-- src/domain/components/user/users-reader.ts).
use be.Prelude.{
  Bool, true, false, not, ◌&&◌, Option, none, some, List, map, ◌==◌, ◌≡◌, refl, sym, arith, is_some,
  keep, take, left_join, some_of, one_of, All-map, All-of_Memᴰ, Memᴰ-keep, Memᴰ-perm, Memᴰ-take,
  Memᴰ-left_join, some_of-keep_nil, length-map, length-take_le, inl, inr, Bool-cases, ◌⊎◌, [],
}
use mathlib.Core.List.{Memᴰ}
use mathlib.Core.Path.{subst}
use be.Store.{Uuid, User, Friend, World, Platform, active_users}
use be.Paging.{IsPage, after_user, by_name}
use be.Users.Types.{FriendRequestStatus, SearchedUser, SearchInput}
use be.Users.Queries.{
  accepted_ids, requested, is_pending, status_of, searched, find_by_account_id_containing,
}
use be.Users.Reader.{search}

-- What a status says of the requests between the two users.
abbrev pub HasStatus : Uuid → World → User → FriendRequestStatus → Type 0
HasStatus user w u FriendRequestStatus.sent =
    (f : Friend) × Memᴰ f w.friends
    × (f.sender_id ≡ user)
    × (f.receiver_id ≡ u.id)
    × (is_pending f.status ≡ true)
HasStatus user w u FriendRequestStatus.received =
    (f : Friend) × Memᴰ f w.friends
    × (f.sender_id ≡ u.id)
    × (f.receiver_id ≡ user)
    × (is_pending f.status ≡ true)
HasStatus user w u FriendRequestStatus.none = some_of (requested user u) w.friends ≡ false

-- Another active user whose account id fits, neither blocked by the user nor a friend.
abbrev pub IsFound : ⦃p : Platform⦄ → Uuid → SearchInput → World → SearchedUser → Type 0
IsFound ⦃p⦄ user input w s =
    (u : User) × Memᴰ u w.users
    × (is_some u.deleted_at ≡ false)
    × (u.id ≡ s.id)
    × ((u.id == user) ≡ false)
    × (one_of (map (λ b. b.blocked_id) (keep (λ b. b.blocker_id == user) w.blocked_users)) u.id
        ≡ false)
    × (one_of (accepted_ids user w.friends) u.id ≡ false)
    × (p.like u.account_id input.search ≡ true)
    × HasStatus user w u s.status

status_of-requested :
    (user : Uuid) (w : World) (u : User) (f : Friend)
    → (u.id == user) ≡ false
    → Memᴰ f w.friends
    → requested user u f ≡ true
    → HasStatus user w u (status_of user (some f))
status_of-requested user w u f other m h = elim (Bool-cases (f.sender_id == user)) [
  | inl mine ↦ rw mine (f, m, ground arith, ground arith, ground arith)
  | inr theirs ↦
      let to_me : (f.receiver_id == user) ≡ true = ground arith in
      rw theirs (rw to_me (f, m, ground arith, ground arith, ground arith))
]

status_of-HasStatus :
    (user : Uuid) (w : World) (u : User) (o : Option Friend)
    → (u.id == user) ≡ false
    → (o ≡ none) × (keep (requested user u) w.friends ≡ [])
      ⊎ ((f : Friend) × (o ≡ some f) × Memᴰ f w.friends × (requested user u f ≡ true))
    → HasStatus user w u (status_of user o)
status_of-HasStatus user w u none other (inl (e, nothing)) =
    some_of-keep_nil (requested user u) w.friends nothing
status_of-HasStatus user w u none other (inr (f, e, m, h)) = cc
status_of-HasStatus user w u (some g) other (inl (e, nothing)) = cc
status_of-HasStatus user w u (some g) other (inr (f, e, m, h)) =
    let same : g ≡ f = cc in
    subst (λ z. HasStatus user w u (status_of user (some z))) (sym same)
      (status_of-requested user w u f other m h)

module _ ⦃p : Platform⦄ where
  abbrev demanded : Uuid → SearchInput → World → User × Option Friend → Bool
  demanded user input w row =
      not (
        one_of (map (λ b. b.blocked_id) (keep (λ b. b.blocker_id == user) w.blocked_users))
          row.0.id)
      && p.like row.0.account_id input.search
      && not (row.0.id == user)
      && after_user input.pagination_input.cursor row.0.name row.0.account_id
      && not (one_of (accepted_ids user w.friends) row.0.id)

  abbrev rows : Uuid → World → List (User × Option Friend)
  rows user w = left_join (requested user) (active_users w) w.friends

  abbrev page_of : Uuid → SearchInput → World → List (User × Option Friend)
  page_of user input w = take input.pagination_input.limit (
      p.order_by (by_name (λ row. row.0.name) (λ row. row.0.account_id))
        (keep (demanded user input w) (rows user w)))

  searched-IsFound :
      (user : Uuid) (input : SearchInput) (w : World) (row : User × Option Friend)
      → Memᴰ row (page_of user input w)
      → IsFound user input w (searched user row)
  searched-IsFound user input w (u, o) m =
      let (n, fits) =
        Memᴰ-keep (demanded user input w) (rows user w) (u, o)
          (Memᴰ-perm (p.order_by_perm (by_name (λ row. row.0.name) (λ row. row.0.account_id)) _)
            (Memᴰ-take input.pagination_input.limit _ (u, o) m)) in
      let (k, request) = Memᴰ-left_join (requested user) (active_users w) w.friends u o n in
      let (l, active) = Memᴰ-keep (λ u. not (is_some u.deleted_at)) w.users u k in
      let other : (u.id == user) ≡ false = ground arith in
      (
        u,
        l,
        ground arith,
        refl,
        other,
        ground arith,
        ground arith,
        ground arith,
        status_of-HasStatus user w u o other request,
      )

  -- A search of users returns and changes nothing. It finds other active users whose account id
  -- matches, none that the user has blocked or is a friend of, and no more than the limit; the
  -- status says sent only with a pending request to that user, received only with one from that
  -- user, and none only where no request is pending between the two.
  pub search-IsFound :
      (user : Uuid) (input : SearchInput) (w : World)
      → IsPage (IsFound user input w) input.pagination_input.limit w (search user input w)
  unfolding search find_by_account_id_containing
  search-IsFound user input w = (
    _,
    refl,
    All-map (IsFound user input w) (searched user) (page_of user input w)
        (All-of_Memᴰ (page_of user input w) (searched-IsFound user input w)),
    omega (
      arith,
      length-map (searched user) (page_of user input w),
      length-take_le input.pagination_input.limit (
          p.order_by (by_name (λ row. row.0.name) (λ row. row.0.account_id))
            (keep (demanded user input w) (rows user w))),
    ),
  )
