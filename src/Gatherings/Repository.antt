-- ===== src/Gatherings/Repository.antt =====
-- src/infrastructure/repositories/gathering/gatherings-prisma.repository.ts: the lookups and the
-- writes. The paginated lists are not modelled.
use be.Prelude.{Bool, not, ◌&&◌, Option, some, ◌==◌, is_some}
use be.Store.{
  Uuid, Gathering, Action, Platform, ⊤, gets, or_throw, modify, ◌>>=◌, now, unique_violation,
  record_not_found,
}

abbrev pub gathering_clash : Gathering → Gathering → Bool
gathering_clash g h = g.id == h.id

-- The rows of the view `active_gathering`.
abbrev pub is_active : Uuid → Gathering → Bool
is_active id g = g.id == id && not (is_some g.deleted_at)

module _ ⦃p : Platform⦄ where
  unfoldable pub save : Gathering → Action ⊤
  save gathering = do
    table ← gets (λ w. w.gatherings)
    table' ← or_throw (p.create gathering_clash gathering table) unique_violation
    modify (λ w. record w { gatherings = table' })

  unfoldable pub find_one_by_id_and_host_id : Uuid → Uuid → Action (Option Gathering)
  find_one_by_id_and_host_id id host_id =
      gets (λ w. p.find_first (λ g. is_active id g && g.host_user_id == host_id) w.gatherings)

  unfoldable pub find_one_by_id : Uuid → Action (Option Gathering)
  find_one_by_id id = gets (λ w. p.find_first (is_active id) w.gatherings)

  unfoldable pub update : Uuid → (Gathering → Gathering) → Action ⊤
  update id change = do
    table ← gets (λ w. w.gatherings)
    table' ← or_throw (p.update (λ g. g.id == id) change table) record_not_found
    modify (λ w. record w { gatherings = table' })

  -- A gathering is withdrawn, not removed.
  unfoldable pub delete : Uuid → Action ⊤
  unfolding update now
  delete id = do deleted_at ← now; update id (λ g. record g { deleted_at = some deleted_at })
