-- ===== src/Friends/Repository.antt =====
-- src/infrastructure/repositories/friend/friends.prisma.repository.ts: the lookups, the count and
-- the writes.
use be.Prelude.{ℕ, Bool, true, false, not, ◌&&◌, ◌||◌, Option, ◌==◌, is_some, some_of}
use be.Store.{
  Uuid, Friend, FriendStatus, Action, Platform, ⊤, gets, or_throw, modify, ◌>>=◌, unique_violation,
  record_not_found,
}

-- The unique keys of the table: the id, and the sender with the receiver.
abbrev pub friend_clash : Friend → Friend → Bool
friend_clash f g = f.id == g.id || (f.sender_id == g.sender_id && f.receiver_id == g.receiver_id)

-- The filter of the queries on two users, in the order of its alternatives.
abbrev pub links : Uuid → Uuid → Friend → Bool
links a b f = (f.sender_id == a && f.receiver_id == b) || (f.sender_id == b && f.receiver_id == a)

abbrev pub is_pending : FriendStatus → Bool
is_pending FriendStatus.pending = true
is_pending _ = false

module _ ⦃p : Platform⦄ where
  unfoldable pub save : Friend → Action ⊤
  save friend = do
    table ← gets (λ w. w.friends)
    table' ← or_throw (p.create friend_clash friend table) unique_violation
    modify (λ w. record w { friends = table' })

  unfoldable pub find_one_by_id : Uuid → Action (Option Friend)
  find_one_by_id id = gets (λ w. p.find_first (λ f. f.id == id) w.friends)

  unfoldable pub find_one_by_sender_and_receiver_id : Uuid → Uuid → Action (Option Friend)
  find_one_by_sender_and_receiver_id first second =
      gets (λ w. p.find_first (links first second) w.friends)

  unfoldable pub find_one_friend_by_user_id : Uuid → Action (Option Friend)
  find_one_friend_by_user_id user_id =
      gets (λ w. p.find_first (λ f. f.sender_id == user_id || f.receiver_id == user_id) w.friends)

  -- Requests sent to, or received from, users that are not withdrawn.
  unfoldable pub count_request : Uuid → Action ℕ
  count_request user_id = gets (λ w.
      let active = λ (id : Uuid). some_of (λ u. u.id == id && not (is_some u.deleted_at)) w.users in
      p.count
        (λ f.
          is_pending f.status
          && ((f.sender_id == user_id && active f.receiver_id)
              || (f.receiver_id == user_id && active f.sender_id)))
        w.friends)

  unfoldable pub update : Uuid → Uuid → (Friend → Friend) → Action ⊤
  update sender receiver change =
      modify (λ w. record w { friends = p.update_many (links sender receiver) change w.friends })

  unfoldable pub update_by_id : Uuid → (Friend → Friend) → Action ⊤
  update_by_id id change = do
    table ← gets (λ w. w.friends)
    table' ← or_throw (p.update (λ f. f.id == id) change table) record_not_found
    modify (λ w. record w { friends = table' })

  unfoldable pub delete_by_user_ids : Uuid → Uuid → Action ⊤
  delete_by_user_ids first second =
      modify (λ w. record w { friends = p.delete_many (links first second) w.friends })
