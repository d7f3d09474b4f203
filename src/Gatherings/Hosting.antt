-- ===== src/Gatherings/Hosting.antt =====
-- `update` and `delete` of src/domain/services/gatherings/gatherings.service.ts, for the host and
-- for other users.
use be.Prelude.{
  true, false, not, ◌&&◌, some, ◌≡◌, arith, ◌==◌, if◌then◌else◌, keep, replace, how_many, ◌≤◌, ltb,
  suc, is_some, All-Memᴰ, Option-cases, inl, inr,
}
use mathlib.Core.List.{Memᴰ}
use be.Store.{
  Uuid, Time, Gathering, World, ok, err, Platform, forbidden, gathering_not_found,
  gathering_creation_past_date, unprocessable_entity, find_first_unique, Memᴰ-unique, some_of-Memᴰ,
}
use be.Gatherings.Entities.{UpdateInput}
use be.Gatherings.Repository.{is_active}
use be.Gatherings.Service.{update, delete, delete_body, delete_transaction}

active_exists : (id : Uuid) (g : Gathering) → is_active id g ≡ true → (g.id == id) ≡ true
active_exists id g e = ground arith

module _ ⦃p : Platform⦄ where
  -- The gathering with the new texts and date.
  abbrev pub with_input : UpdateInput → Time → Gathering → Gathering
  with_input input std_date g = record g {
    name = input.name;
    description = input.description;
    address = input.address;
    gathering_date = input.gathering_date;
    updated_at = std_date;
  }

  -- For the only active gathering with the id, an update to a date in the past is refused, then
  -- one by a user who is not its host, and every other one replaces the texts and the date of the
  -- gathering, and the date of its last change.
  pub update_gathering-verdict :
      (id host : Uuid) (input : UpdateInput) (g : Gathering) (w : World)
      → how_many (is_active id) w.gatherings ≤ 1
      → Memᴰ g w.gatherings
      → is_active id g ≡ true
      → update id host input w ≡ (
          if ltb input.gathering_date (p.clock w.ticks)
          then (err gathering_creation_past_date, record w { ticks = suc w.ticks })
          else if g.host_user_id == host
          then (
            ok tt,
            record w {
              gatherings =
                  replace (λ g. g.id == id) (with_input input (p.clock (suc w.ticks))) w.gatherings;
              ticks = suc (suc w.ticks);
            },
          )
          else (err forbidden, record w { ticks = suc w.ticks }))
  unfolding update
  update_gathering-verdict id host input g w one m e = ground (
    arith,
    find_first_unique (is_active id) w.gatherings g one m e,
    some_of-Memᴰ (λ g. g.id == id) w.gatherings g m (active_exists id g e),
    p.update_lem (λ g. g.id == id) (with_input input (p.clock (suc w.ticks))) w.gatherings,
  )

  -- A gathering withdrawn at some time: its row stays, its participations go.
  abbrev pub withdrawn : Uuid → World → World
  withdrawn id w = record w {
    gatherings =
        replace (λ g. g.id == id) (λ g. record g { deleted_at = some (p.clock w.ticks) })
          w.gatherings;
    gathering_participations = keep (λ gp. not (gp.gathering_id == id)) w.gathering_participations;
    ticks = suc w.ticks;
  }

  delete_transaction-eq :
      (id : Uuid) (g : Gathering) (w : World)
      → Memᴰ g w.gatherings
      → is_active id g ≡ true
      → delete_transaction id w ≡ (ok tt, withdrawn id w)
  unfolding delete_transaction delete_body
  delete_transaction-eq id g w m e = p.transactional_ok (delete_body id) w (withdrawn id w) tt (
      ground (
        arith,
        some_of-Memᴰ (λ g. g.id == id) w.gatherings g m (active_exists id g e),
        p.update_lem (λ g. g.id == id) (λ g. record g { deleted_at = some (p.clock w.ticks) })
            w.gatherings,
        p.delete_many_lem (λ gp. gp.gathering_id == id) w.gathering_participations,
      ))

  -- For the only active gathering with the id, a user who is not its host is told that there is
  -- none, the host of an ended one is refused, and in every other case the gathering is marked as
  -- deleted and all its participations are removed.
  pub delete_gathering-verdict :
      (id user : Uuid) (g : Gathering) (w : World)
      → how_many (is_active id) w.gatherings ≤ 1
      → Memᴰ g w.gatherings
      → is_active id g ≡ true
      → delete id user w ≡ (
          if not (g.host_user_id == user)
          then (err gathering_not_found, w)
          else if is_some g.ended_at
          then (err unprocessable_entity, w)
          else (ok tt, withdrawn id w))
  unfolding delete
  delete_gathering-verdict id user g w one m e =
      elim (Option-cases
        (p.find_first (λ g. is_active id g && g.host_user_id == user) w.gatherings)) [
          | inl missing ↦
              let unfit =
                All-Memᴰ (λ g. (is_active id g && g.host_user_id == user) ≡ false) w.gatherings
                  (p.find_first_none (λ g. is_active id g && g.host_user_id == user) w.gatherings
                    missing)
                  m in
              ground (arith, unfit)
          | inr (h, found) ↦
              let (n, fits) =
                p.find_first_some (λ g. is_active id g && g.host_user_id == user) w.gatherings h
                  found in
              let same : h ≡ g =
                Memᴰ-unique (is_active id) w.gatherings h g one n (ground arith) m e in
              ground (arith, delete_transaction-eq id g w m e)
        ]
