-- ===== src/Gatherings/Invited.antt =====
-- Which invitations the list of received invitations shows (`readReceived` of
-- src/domain/components/gathering/gathering-invitations-reader.ts).
use mathlib.Core.Path.{subst, ap₂}
use be.Prelude.{
  Bool, ◌∷◌, true, false, not, ◌&&◌, List, [], map, ◌==◌, ◌≤◌, ◌≡◌, refl, sym, ◌∙◌, ap, arith,
  is_some, keep, values, collect_by, collect_by-Holds, collect_by-IsDistinct, one_of, one_of-map,
  All, All-map, All-Memᴰ, All-of_Memᴰ, Holds, Pairs, Pairs-unique, IsDistinct, Memᴰ-keep, Memᴰ-perm,
  Memᴰ-take, Memᴰ-group_by, Memᴰ-join, Memᴰ-map, Memᴰ-left_join, keys,
}
use mathlib.Core.List.{Memᴰ}
use be.Store.{Uuid, User, Gathering, GatheringParticipation, World, Result, ok, Platform}
use be.Paging.{Page, DateIdCursor, PaginatedDateRangeInput, last_first}
use be.Gatherings.Types.{ReceivedGatheringInvitation}
use be.Gatherings.ParticipationsRepository.{is_pending}
use be.Gatherings.Queries.{in_range, from_cursor}
use be.Gatherings.InvitationQueries.{
  InvitationRow, invitation_rows, received, received_ids, of_group, find_received_by_participant_id,
}
use be.Gatherings.InvitationsReader.{read_received}

module _ ⦃p : Platform⦄ where
  -- A pending invitation of the user to a gathering that is not deleted, in the range of the input,
  -- shown with the account of the gathering's host.
  abbrev pub IsInvited :
      Uuid → PaginatedDateRangeInput → World → ReceivedGatheringInvitation → Type 0
  IsInvited user input w v =
      (gp : GatheringParticipation) × (g : Gathering) × (host : User) × Memᴰ gp
        w.gathering_participations
      × Memᴰ g w.gatherings
      × Memᴰ host w.users
      × (gp.id ≡ v.id)
      × (g.id ≡ v.gathering_id)
      × (host.account_id ≡ v.sender)
      × (gp.gathering_id ≡ g.id)
      × (g.host_user_id ≡ host.id)
      × (gp.participant_id ≡ user)
      × (is_pending gp.status ≡ true)
      × (is_some g.deleted_at ≡ false)
      × (p.date input.min_date ≤ gp.created_at)
      × (gp.created_at ≤ p.date input.max_date)

  -- The row of an invitation holds a stored participation, its gathering and its host.
  abbrev IsStored : World → InvitationRow → Type 0
  IsStored w row =
      Memᴰ row.participation w.gathering_participations
      × Memᴰ row.gathering w.gatherings
      × Memᴰ row.sender w.users
      × (is_some row.gathering.deleted_at ≡ false)
      × (row.participation.gathering_id ≡ row.gathering.id)
      × (row.gathering.host_user_id ≡ row.sender.id)

  invitation_rows-IsStored :
      (w : World) (row : InvitationRow) → Memᴰ row (invitation_rows w.users w) → IsStored w row
  invitation_rows-IsStored w row m =
      let (t, n, e) = Memᴰ-map _ _ row m in
      let (k, _) = Memᴰ-left_join (λ r gr. of_group r.0.1 gr) _ w.groups t.0 t.1 n in
      let (l, host, hosted) = Memᴰ-join (λ r hu. r.1.host_user_id == hu.id) _ w.users t.0 k in
      let (stored, active, of) = Memᴰ-join (λ gp g. gp.gathering_id == g.id) _ _ t.0.0 l in
      let (g, kept) = Memᴰ-keep (λ g. not (is_some g.deleted_at)) w.gatherings t.0.0.1 active in
      subst (IsStored w) (sym e) (stored, g, host, ground arith, ground arith, ground arith)

  abbrev demanded :
      Uuid → PaginatedDateRangeInput → (GatheringParticipation × Gathering) × User → Bool
  demanded user input row =
      row.0.0.participant_id == user
      && is_pending row.0.0.status
      && in_range input row.0.0.created_at
      && from_cursor input row.0.0.created_at row.0.1.id

  -- The ids of a page are those of pending invitations of the user.
  abbrev IsAsked : Uuid → PaginatedDateRangeInput → World → Uuid → Type 0
  IsAsked user input w id =
      (gp : GatheringParticipation) × Memᴰ gp w.gathering_participations
      × (gp.id ≡ id)
      × (gp.participant_id ≡ user)
      × (is_pending gp.status ≡ true)
      × (p.date input.min_date ≤ gp.created_at)
      × (gp.created_at ≤ p.date input.max_date)

  received_ids-IsAsked :
      (user : Uuid) (input : PaginatedDateRangeInput) (w : World) (id : Uuid)
      → one_of (received_ids user input w) id ≡ true
      → IsAsked user input w id
  unfolding received_ids in_range
  received_ids-IsAsked user input w id e =
      let (row, m, same) = one_of-map (λ row. row.0.0.id) _ id e in
      let (n, fits) =
        Memᴰ-keep (demanded user input) _ row (
          Memᴰ-group_by _ _ row
            (Memᴰ-perm (p.order_by_perm _ _) (Memᴰ-take input.limit _ row m))) in
      let (k, active, of) = Memᴰ-join (λ r u. u.id == r.1.host_user_id) _ _ row n in
      let (stored, _, _) = Memᴰ-join (λ gp g. g.id == gp.gathering_id) _ _ row.0 k in
      (row.0.0, stored, same, ground arith, ground arith, ground arith, ground arith)

  abbrev selected : Uuid → PaginatedDateRangeInput → World → List InvitationRow
  selected user input w =
      p.order_by (last_first (λ row. row.participation.created_at) (λ row. row.participation.id)) (
        keep (λ row. one_of (received_ids user input w) row.participation.id)
          (invitation_rows w.users w))

  row-IsInvited :
      (user : Uuid) (input : PaginatedDateRangeInput) (w : World) (row : InvitationRow)
      → Pairs (λ gp h. (gp.id == h.id) ≡ false) w.gathering_participations
      → Memᴰ row (selected user input w)
      → IsInvited user input w (received row)
  row-IsInvited user input w row distinct m =
      let (n, listed) =
        Memᴰ-keep (λ row. one_of (received_ids user input w) row.participation.id) _ row
          (Memᴰ-perm (p.order_by_perm _ _) m) in
      let (stored, g, host, kept, of, hosted) = invitation_rows-IsStored w row n in
      let (gp, asked, same, mine, pending, from, to) =
        received_ids-IsAsked user input w row.participation.id listed in
      let one : gp ≡ row.participation =
        Pairs-unique (λ gp. gp.id) w.gathering_participations gp row.participation distinct asked
          stored same in
      (
        gp,
        row.gathering,
        row.sender,
        asked,
        g,
        host,
        same,
        refl,
        refl,
        ap (λ gp. gp.gathering_id) one ∙ of,
        hosted,
        mine,
        pending,
        kept,
        from,
        to,
      )

  -- The invitations on a page and that no gathering is there twice.
  abbrev pub ListsInvited :
      Uuid
      → PaginatedDateRangeInput
      → World
      → Result (Page ReceivedGatheringInvitation DateIdCursor) × World
      → Type 0
  ListsInvited user input w result =
      (page : Page ReceivedGatheringInvitation DateIdCursor) × (result ≡ (ok page, w))
      × All (IsInvited user input w) page.items
      × IsDistinct (map (λ v. v.gathering_id) page.items)

  abbrev found : Uuid → PaginatedDateRangeInput → World → List (Uuid × ReceivedGatheringInvitation)
  found user input w =
      collect_by (λ row. row.gathering.id) received (λ row _. received row) (selected user input w)
        []

  found-Holds :
      (user : Uuid) (input : PaginatedDateRangeInput) (w : World)
      → Pairs (λ gp h. (gp.id == h.id) ≡ false) w.gathering_participations
      → Holds (λ k v. (v.gathering_id ≡ k) × IsInvited user input w v) (found user input w)
  found-Holds user input w distinct =
      collect_by-Holds (λ row. row.gathering.id) received (λ row _. received row) _
        (selected user input w) []
        (All-of_Memᴰ (selected user input w)
          λ row m. (refl, row-IsInvited user input w row distinct m))
        (All-of_Memᴰ (selected user input w)
          λ row m v h. (refl, row-IsInvited user input w row distinct m))
        tt

  same_keys :
      (result : List (Uuid × ReceivedGatheringInvitation))
      → All (λ e. e.1.gathering_id ≡ e.0) result
      → map (λ v. v.gathering_id) (values result) ≡ keys result
  same_keys [] h = refl
  same_keys (e ∷ result) (h, hs) = ap₂ (λ k ks. k ∷ ks) h (same_keys result hs)

  -- Where the participations have different ids, reading the received invitations returns and
  -- changes nothing. Every invitation on the page is a pending one of the user, in the range of
  -- the dates, to a gathering that is not deleted, and names the account of the gathering’s host;
  -- no gathering is there twice.
  pub read_received-IsInvited :
      (user : Uuid) (input : PaginatedDateRangeInput) (w : World)
      → Pairs (λ gp h. (gp.id == h.id) ≡ false) w.gathering_participations
      → ListsInvited user input w (read_received user input w)
  unfolding read_received find_received_by_participant_id
  read_received-IsInvited user input w distinct =
      let known = found-Holds user input w distinct in
      (
        _,
        refl,
        All-map (IsInvited user input w) (λ e. e.1) (found user input w)
            (All-of_Memᴰ (found user input w) λ e m. (All-Memᴰ _ (found user input w) known m).1),
        subst IsDistinct
            (sym (
              same_keys (found user input w) (
                All-of_Memᴰ (found user input w)
                  λ e m. (All-Memᴰ _ (found user input w) known m).0)))
            (collect_by-IsDistinct (λ row. row.gathering.id) received (λ row _. received row)
              (selected user input w) [] tt),
      )
