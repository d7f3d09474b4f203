-- ===== src/Gatherings/Creation.antt =====
-- The rows that `create` of src/domain/services/gatherings/gatherings.service.ts makes, and its
-- transaction.
pub mod Whole
use be.Prelude.{
  ℕ, suc, ◌+◌, ◌≤◌, Bool, true, false, not, ◌&&◌, ◌||◌, Option, none, some, List, [], ◌∷◌, ◌++◌,
  ◌≡◌, refl, arith, Option-cases, inl, inr, ◌==◌, if◌then◌else◌, some_of, how_many, keep, length,
  Bool-cases, ◌⊎◌,
}
use be.Store.{
  Uuid, Time, Gathering, GatheringType, GatheringParticipation, GatheringParticipationStatus, World,
  Result, ok, err, Error, Action, Platform, ⊤, rolled_back, unique_violation, transactional-eq,
  how_many-create_many, pure,
}
use be.Gatherings.Entities.{GatheringPrototype, gathering, participation, create_bulk}
use be.Gatherings.Repository.{gathering_clash}
use be.Gatherings.ParticipationsRepository.{participation_clash, is_pending}
use be.Gatherings.Service.{
  status_for, is_group, create, create_body, create_transaction, validate, invitees,
  create_entities,
}
use be.Notifications.Quiet.{send_gathering_creation-IsQuiet}

-- The rows of the invitees, with the identifiers from the n-th on.
unfoldable pub rows_from :
    (ℕ → Uuid)
    → Uuid
    → (Uuid → GatheringParticipationStatus)
    → Time
    → List Uuid
    → ℕ
    → List GatheringParticipation
rows_from uuid g status t [] n = []
rows_from uuid g status t (id ∷ ids) n =
    participation g id (status id) (uuid n) t ∷ rows_from uuid g status t ids (suc n)

abbrev pub is_accepted : GatheringParticipationStatus → Bool
is_accepted GatheringParticipationStatus.accepted = true
is_accepted _ = false

-- A row of this gathering for this user, with a status that passes the test.
abbrev pub is_for :
    Uuid → Uuid → (GatheringParticipationStatus → Bool) → GatheringParticipation → Bool
is_for g user status gp = gp.gathering_id == g && gp.participant_id == user && status gp.status

-- How often a user is among the invitees.
abbrev pub times : Uuid → List Uuid → ℕ
times user ids = how_many (λ id. id == user) ids

module _ (uuid : ℕ → Uuid) (g host user : Uuid) (t : Time) where
  abbrev made : List Uuid → ℕ → List GatheringParticipation
  made ids n = rows_from uuid g (status_for host) t ids n

  -- The host is accepted, as often as invited, and nobody else is.
  pub accepted-made :
      (ids : List Uuid) (n : ℕ)
      → how_many (is_for g user is_accepted) (made ids n)
        ≡ (if user == host then times user ids else 0)
  unfolding rows_from
  accepted-made [] n = ground arith
  accepted-made (id ∷ ids) n = ground (arith, accepted-made ids (suc n))

  -- Everybody else is pending.
  pub pending-made :
      (ids : List Uuid) (n : ℕ)
      → how_many (is_for g user is_pending) (made ids n)
        ≡ (if user == host then 0 else times user ids)
  unfolding rows_from
  pending-made [] n = ground arith
  pending-made (id ∷ ids) n = ground (arith, pending-made ids (suc n))

  pub all-made :
      (ids : List Uuid) (n : ℕ) → how_many (λ gp. gp.gathering_id == g) (made ids n) ≡ length ids
  unfolding rows_from
  all-made [] n = refl
  all-made (id ∷ ids) n = ground (arith, all-made ids (suc n))

module _ ⦃p : Platform⦄ where
  pub create_bulk-eq :
      (g : Uuid) (status : Uuid → GatheringParticipationStatus) (t : Time) (ids : List Uuid)
      (w : World)
      → create_bulk g status t ids w
        ≡ (ok (rows_from p.uuid g status t ids w.draws), record w { draws = w.draws + length ids })
  unfolding create_bulk rows_from
  create_bulk-eq g status t [] w = ground arith
  create_bulk-eq g status t (id ∷ ids) w =
      ground (arith, create_bulk-eq g status t ids (record w { draws = suc w.draws }))

  -- What the transaction does: the gathering and all its rows, or nothing.
  pub create_transaction-Stored :
      (row : Gathering) (rows : List GatheringParticipation) (w : World)
      → let (r, w') = create_transaction row rows w in
        ((r ≡ ok tt)
          × (w'.gatherings ≡ row ∷ w.gatherings)
          × ((q : GatheringParticipation → Bool)
              → how_many q w'.gathering_participations
                ≡ how_many q w.gathering_participations + how_many q rows))
        ⊎ ((r ≡ err unique_violation) × (w' ≡ w))
  unfolding create_transaction create_body rolled_back
  create_transaction-Stored row rows w =
      elim (Option-cases (p.create gathering_clash row w.gatherings)) [
        | inl e ↦ inr (ground (arith, transactional-eq (create_body row rows) w))
        | inr (gs, e) ↦
            elim (Option-cases
              (p.create_many participation_clash rows w.gathering_participations)) [
                | inl f ↦ inr (ground (arith, transactional-eq (create_body row rows) w))
                | inr (t, f) ↦ inl (
                  ground (arith, transactional-eq (create_body row rows) w),
                  ground (
                    arith,
                    transactional-eq (create_body row rows) w,
                    p.create_lem gathering_clash row w.gatherings,
                  ),
                  λ q. ground (
                    arith,
                    transactional-eq (create_body row rows) w,
                    how_many-create_many q participation_clash rows w.gathering_participations t f,
                  ),
                )
              ]
      ]
