-- ===== src/Friends/Others.antt =====
-- What the operations of src/domain/services/friends/friends.service.ts do to the relations of
-- other pairs.
use be.Prelude.{false, ◌≡◌, refl, arith, Option-cases, inl, inr, ◌==◌}
use be.Store.{Uuid, Friend, World, Result, Platform}
use be.Friends.Repository.{links, friend_clash}
use be.Friends.Relation.{same_pair, status_of, IsValid}
use be.Friends.Relation.Writes.{status_of-keep_other, status_of-replace, links_other}
use be.Friends.Transitions.{accepted_at, accepted_row, delete_transaction-ok}
use be.Friends.Service.{FriendPrototype, friend_entity, request, accept, reject, unfriend}

abbrev pub Keeps : {A : Type 0} → Uuid → Uuid → World → Result A × World → Type 0
Keeps a b w (_, w') =
    (c d : Uuid) → same_pair a b c d ≡ false → status_of c d w'.friends ≡ status_of c d w.friends

-- The row of a new request links no other pair.
entity_other :
    (proto : FriendPrototype) (id t c d : Uuid)
    → same_pair proto.sender_id proto.receiver_id c d ≡ false
    → links c d (friend_entity proto id t) ≡ false
entity_other proto id t c d h = ground arith

module _ ⦃p : Platform⦄ where
  -- A request changes the relation of no other two users.
  pub request-Keeps :
      (proto : FriendPrototype) (w : World)
      → Keeps proto.sender_id proto.receiver_id w (request proto w)
  unfolding request
  request-Keeps proto w c d other =
      let r : Friend = friend_entity proto (p.uuid w.draws) (p.clock w.ticks) in
      ground (
        arith,
        p.create_lem friend_clash r w.friends,
        entity_other proto (p.uuid w.draws) (p.clock w.ticks) c d other,
      )

  -- On a valid table, an acceptance changes the relation of no other two users.
  pub accept-Keeps : (s r : Uuid) (w : World) → IsValid w.friends → Keeps s r w (accept s r w)
  unfolding accept
  accept-Keeps s r w v c d other = elim (Option-cases (p.find_first (links s r) w.friends)) [
    | inl e ↦ ground arith
    | inr (f, e) ↦
        let (m, l) = p.find_first_some (links s r) w.friends f e in
        let unlinked = links_other s r c d f other l in
        let after =
          status_of-replace (accepted_at w) (accepted_row w) f.id f c d w.friends v m refl in
        ground (arith, unlinked, after, p.update_lem (λ g. g.id == f.id) (accepted_at w) w.friends)
  ]

  pub reject-Keeps : (s r : Uuid) (w : World) → Keeps s r w (reject s r w)
  unfolding reject
  reject-Keeps s r w c d other =
      ground (
        arith,
        p.delete_many_lem (links s r) w.friends,
        status_of-keep_other s r c d w.friends other,
      )

  -- The end of a friendship changes the relation of no other two users.
  pub unfriend-Keeps : (s r : Uuid) (w : World) → Keeps s r w (unfriend s r w)
  unfolding unfriend
  unfriend-Keeps s r w c d other = ground (
    arith,
    delete_transaction-ok s r w,
    p.delete_many_lem (links s r) w.friends,
    status_of-keep_other s r c d w.friends other,
  )
