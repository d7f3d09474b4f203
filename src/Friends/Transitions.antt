-- ===== src/Friends/Transitions.antt =====
-- The operations of src/domain/services/friends/friends.service.ts as transitions of the relation
-- of two users.
use be.Prelude.{true, not, Option, none, some, ◌≡◌, refl, arith, Option-cases, inl, inr, ◌==◌}
use be.Store.{Uuid, Friend, FriendStatus, World, Result, ok, err, Platform}
use be.Friends.Repository.{links, friend_clash}
use be.Friends.Relation.{same_pair, status_of, IsValid}
use be.Friends.Relation.Lookups.{status_of-Memᴰ, status_of-none}
use be.Friends.Relation.Writes.{
  cons-IsValid, keep-IsValid, status_of-keep_same, replace-IsValid, status_of-replace,
  status_of-ne-reported,
}
use be.Gatherings.ParticipationsRepository.{is_pending_between}
use be.Friends.Service.{
  FriendPrototype, friend_entity, request, accept, reject, unfriend, delete_body,
  delete_transaction,
}

-- How an operation on two users ended: it returned, the table is still valid and their relation
-- went from one status to the other; or it threw and the table is as before.
abbrev pub Turns :
    {A : Type 0}
    → Uuid
    → Uuid
    → Option FriendStatus
    → Option FriendStatus
    → World
    → Result A × World
    → Type 0
Turns a b before after w (ok _, w') =
    IsValid w'.friends × (status_of a b w.friends ≡ before) × (status_of a b w'.friends ≡ after)
Turns a b before after w (err _, w') = w'.friends ≡ w.friends

same_pair_refl : (a b : Uuid) → same_pair a b a b ≡ true
same_pair_refl a b = ground arith

module _ ⦃p : Platform⦄ where
  -- On a valid table, a request that returns has turned the relation of the two users from none to
  -- pending in a table that is still valid, and one that throws leaves the table as it was.
  pub request-Turns :
      (proto : FriendPrototype) (w : World)
      → IsValid w.friends
      → Turns proto.sender_id proto.receiver_id none (some FriendStatus.pending) w (request proto w)
  unfolding request
  request-Turns proto w v =
      let r : Friend = friend_entity proto (p.uuid w.draws) (p.clock w.ticks) in
      ground (
        arith,
        p.find_first_none (links proto.sender_id proto.receiver_id) w.friends,
        status_of-none proto.sender_id proto.receiver_id w.friends,
        p.create_lem friend_clash r w.friends,
        cons-IsValid r w.friends v,
      )

  -- The change that `accept` makes, at the time it reads.
  abbrev pub accepted_at : World → Friend → Friend
  accepted_at w f = record f { status = FriendStatus.accepted; updated_at = p.clock w.ticks }

  pub accepted_row :
      (w : World) (f : Friend)
      → let g = accepted_at w f in
        (g.id ≡ f.id)
        × (g.sender_id ≡ f.sender_id)
        × (g.receiver_id ≡ f.receiver_id)
        × (g.status ≡ FriendStatus.accepted)
  accepted_row w f = (refl, refl, refl, refl)

  -- On a valid table, an acceptance that returns has turned the relation of the two users from
  -- pending to accepted in a table that is still valid, and one that throws leaves the table as it
  -- was.
  pub accept-Turns :
      (s r : Uuid) (w : World)
      → IsValid w.friends
      → Turns s r (some FriendStatus.pending) (some FriendStatus.accepted) w (accept s r w)
  unfolding accept
  accept-Turns s r w v = elim (Option-cases (p.find_first (links s r) w.friends)) [
    | inl e ↦ ground arith
    | inr (f, e) ↦
        let (m, l) = p.find_first_some (links s r) w.friends f e in
        ground (
          arith,
          status_of-Memᴰ s r w.friends f v m l,
          status_of-ne-reported s r w.friends v,
          p.update_lem (λ g. g.id == f.id) (accepted_at w) w.friends,
          replace-IsValid (accepted_at w) (accepted_row w) f.id w.friends v,
          status_of-replace (accepted_at w) (accepted_row w) f.id f s r w.friends v m refl,
        )
  ]

  -- On a valid table, a refusal that returns has turned the relation of the two users from pending
  -- to none in a table that is still valid, and one that throws leaves the table as it was.
  pub reject-Turns :
      (s r : Uuid) (w : World)
      → IsValid w.friends
      → Turns s r (some FriendStatus.pending) none w (reject s r w)
  unfolding reject
  reject-Turns s r w v = elim (Option-cases (p.find_first (links s r) w.friends)) [
    | inl e ↦ ground arith
    | inr (f, e) ↦
        let (m, l) = p.find_first_some (links s r) w.friends f e in
        ground (
          arith,
          status_of-Memᴰ s r w.friends f v m l,
          status_of-ne-reported s r w.friends v,
          p.delete_many_lem (links s r) w.friends,
          keep-IsValid (λ f. not (links s r f)) w.friends v,
          status_of-keep_same s r s r w.friends (same_pair_refl s r),
        )
  ]

  -- A transaction of two writes that cannot fail.
  pub delete_transaction-ok :
      (s r : Uuid) (w : World)
      → delete_transaction s r w ≡ (
        ok tt,
        record w {
          friends = p.delete_many (links s r) w.friends;
          gathering_participations =
              p.delete_many (is_pending_between w.gatherings s r) w.gathering_participations;
        },
      )
  unfolding delete_transaction delete_body
  delete_transaction-ok s r w = p.transactional_ok (delete_body s r) w _ tt refl

  -- On a valid table, an end of a friendship that returns has turned the relation of the two users
  -- from accepted to none in a table that is still valid, and one that throws leaves the table as
  -- it was.
  pub unfriend-Turns :
      (s r : Uuid) (w : World)
      → IsValid w.friends
      → Turns s r (some FriendStatus.accepted) none w (unfriend s r w)
  unfolding unfriend
  unfriend-Turns s r w v = elim (Option-cases (p.find_first (links s r) w.friends)) [
    | inl e ↦ ground arith
    | inr (f, e) ↦
        let (m, l) = p.find_first_some (links s r) w.friends f e in
        ground (
          arith,
          status_of-Memᴰ s r w.friends f v m l,
          delete_transaction-ok s r w,
          p.delete_many_lem (links s r) w.friends,
          keep-IsValid (λ f. not (links s r f)) w.friends v,
          status_of-keep_same s r s r w.friends (same_pair_refl s r),
        )
  ]
