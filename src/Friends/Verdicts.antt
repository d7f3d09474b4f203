-- ===== src/Friends/Verdicts.antt =====
-- The answers of src/domain/services/friends/friends.service.ts, from the relation of two users.
use be.Prelude.{
  Bool, true, false, Option, none, some, List, [], ◌∷◌, ◌≡◌, refl, arith, Option-cases, inl, inr,
  some_of, ==_refl, sym, ◌==◌,
}
use mathlib.Core.Option
use be.Store.{
  Uuid, User, Friend, FriendStatus, World, Result, ok, err, Platform, ⊤, already_friends,
  already_exist_request, reported_user_cannot_request, user_not_found, friend_not_found,
  some_of-none, some_of-Memᴰ,
}
use be.Friends.Repository.{links, friend_clash}
use be.Friends.Relation.{status_of, IsValid}
use be.Friends.Relation.Lookups.{status_of-Memᴰ, status_of-none}
use be.Users.Repository.{is_active}
use be.Friends.Service.{FriendPrototype, friend_entity, request, accept, reject}

-- What the service answers to a request, from the relation of the two users and from whether the
-- receiver has an account.
abbrev pub request_verdict : Option FriendStatus → Bool → Result ⊤
request_verdict (some FriendStatus.accepted) known = err already_friends
request_verdict (some FriendStatus.pending) known = err already_exist_request
request_verdict (some FriendStatus.reported) known = err reported_user_cannot_request
request_verdict none true = ok tt
request_verdict none false = err user_not_found

-- What it answers to the receiver's acceptance or refusal.
abbrev pub answer_verdict : Option FriendStatus → Result ⊤
answer_verdict (some FriendStatus.accepted) = err already_friends
answer_verdict (some _) = ok tt
answer_verdict none = err friend_not_found

-- A row whose id is new clashes with none where the two users have no relation.
no_clash :
    (r : Friend) (t : List Friend)
    → some_of (λ f. f.id == r.id) t ≡ false
    → status_of r.sender_id r.receiver_id t ≡ none
    → some_of (friend_clash r) t ≡ false
no_clash r [] h e = refl
no_clash r (f ∷ t) h e = ground (arith, no_clash r t)

module _ ⦃p : Platform⦄ where
  -- A lookup finds the relation of a valid table.
  pub find_first-status_of :
      (a b : Uuid) (t : List Friend)
      → IsValid t
      → Option.map (λ f. f.status) (p.find_first (links a b) t) ≡ status_of a b t
  find_first-status_of a b t v = elim (Option-cases (p.find_first (links a b) t)) [
    | inl e ↦ rw e (sym (status_of-none a b t (p.find_first_none (links a b) t e)))
    | inr (f, e) ↦
        let (m, l) = p.find_first_some (links a b) t f e in
        rw e (sym (status_of-Memᴰ a b t f v m l))
  ]

  -- The receiver has an account that is not withdrawn.
  abbrev pub is_known : Uuid → List User → Bool
  is_known id users = some_of (is_active id) users

  -- On a valid table and with an id that is new, a request is refused with the exception for its
  -- case if the two users are related, refused as for an unknown user if the receiver has no
  -- active account, and returns in every other case.
  pub request-verdict :
      (proto : FriendPrototype) (w : World)
      → IsValid w.friends
      → some_of (λ f. f.id == p.uuid w.draws) w.friends ≡ false
      → (request proto w).0
        ≡ request_verdict
            (status_of proto.sender_id proto.receiver_id w.friends)
            (is_known proto.receiver_id w.users)
  unfolding request
  request-verdict proto w v fresh =
      elim (Option-cases (p.find_first (links proto.sender_id proto.receiver_id) w.friends)) [
        | inr (f, e) ↦
            let (m, l) =
              p.find_first_some (links proto.sender_id proto.receiver_id) w.friends f e in
            ground (arith, status_of-Memᴰ proto.sender_id proto.receiver_id w.friends f v m l)
        | inl e ↦
            let related =
              status_of-none proto.sender_id proto.receiver_id w.friends
                (p.find_first_none (links proto.sender_id proto.receiver_id) w.friends e) in
            let r : Friend = friend_entity proto (p.uuid w.draws) (p.clock w.ticks) in
            elim (Option-cases (p.find_first (is_active proto.receiver_id) w.users)) [
              | inl missing ↦ ground (
                arith,
                some_of-none (is_active proto.receiver_id) w.users
                    (p.find_first_none (is_active proto.receiver_id) w.users missing),
              )
              | inr (u, found) ↦
                  let (m, l) = p.find_first_some (is_active proto.receiver_id) w.users u found in
                  ground (
                    arith,
                    some_of-Memᴰ (is_active proto.receiver_id) w.users u m l,
                    p.create_lem friend_clash r w.friends,
                    no_clash r w.friends fresh related,
                  )
            ]
      ]

  -- On a valid table, an acceptance is refused if the two users are friends already or not
  -- related, and returns in every other case.
  pub accept-verdict :
      (s r : Uuid) (w : World)
      → IsValid w.friends
      → (accept s r w).0 ≡ answer_verdict (status_of s r w.friends)
  unfolding accept
  accept-verdict s r w v = elim (Option-cases (p.find_first (links s r) w.friends)) [
    | inl e ↦
        ground (arith, status_of-none s r w.friends (p.find_first_none (links s r) w.friends e))
    | inr (f, e) ↦
        let (m, l) = p.find_first_some (links s r) w.friends f e in
        ground (
          arith,
          status_of-Memᴰ s r w.friends f v m l,
          p.update_lem (λ g. g.id == f.id)
              (λ f. record f { status = FriendStatus.accepted; updated_at = p.clock w.ticks })
              w.friends,
          some_of-Memᴰ (λ g. g.id == f.id) w.friends f m (==_refl f.id),
        )
  ]

  -- On a valid table, a refusal is refused if the two users are friends already or not related,
  -- and returns in every other case.
  pub reject-verdict :
      (s r : Uuid) (w : World)
      → IsValid w.friends
      → (reject s r w).0 ≡ answer_verdict (status_of s r w.friends)
  unfolding reject
  reject-verdict s r w v = elim (Option-cases (p.find_first (links s r) w.friends)) [
    | inl e ↦
        ground (arith, status_of-none s r w.friends (p.find_first_none (links s r) w.friends e))
    | inr (f, e) ↦
        let (m, l) = p.find_first_some (links s r) w.friends f e in
        ground (arith, status_of-Memᴰ s r w.friends f v m l)
  ]
