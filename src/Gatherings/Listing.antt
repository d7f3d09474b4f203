-- ===== src/Gatherings/Listing.antt =====
-- Which gatherings the lists of planned gatherings and of gatherings without a feed show (`read` and
-- `readUnwrittenFeed` of src/domain/components/gathering/gatherings-reader.ts).
use be.Prelude.{
  ℕ, Bool, true, false, not, ◌&&◌, List, [], ◌==◌, ◌≤◌, ◌≡◌, refl, ◌∙◌, ap, arith, is_some, keep,
  length, values, collect_by, collect_by-Holds, collect_by-IsDistinct, Holds, keys, one_of,
  one_of-map, some_of, All, All-Memᴰ, All-map, All-of_Memᴰ, length-IsDistinct, length-map,
  length-take_le, Memᴰ-keep, Memᴰ-perm, Memᴰ-take, Memᴰ-group_by, Memᴰ-join, Option-cases, inl, inr,
  ◌∷◌,
}
use mathlib.Core.List.{Memᴰ}
use be.Store.{
  Uuid, Feed, Gathering, GatheringParticipation, World, Platform, active_feeds, active_gatherings,
}
use be.Paging.{IsPage, DateIdPaginationInput, PaginatedDateRangeInput, last_first, before_date_id}
use be.Gatherings.Types.{ListedGathering}
use be.Gatherings.Queries.{
  is_accepted, is_of, listed, joined, page_ids, in_range, from_cursor, waiting_ids, unwritten_ids,
  find_gatherings, find_by_user_id, find_gatherings_without_feed_by_user_id,
}
use be.Gatherings.Reader.{read, read_unwritten_feed}

-- A gathering, not deleted, that the user takes part in.
abbrev pub IsJoined : Uuid → World → Gathering → Type 0
IsJoined user w g =
    Memᴰ g w.gatherings
    × (is_some g.deleted_at ≡ false)
    × ((gp : GatheringParticipation) × Memᴰ gp w.gathering_participations
        × (gp.gathering_id ≡ g.id)
        × (gp.participant_id ≡ user)
        × (is_accepted gp.status ≡ true))

abbrev written : Uuid → List Feed → List Feed
written user fs =
    keep (λ f. not (is_some f.deleted_at) && is_some f.gathering_id && f.writer_id == user) fs

some_of-written :
    (user k : Uuid) (fs : List Feed)
    → some_of
        (λ f. is_of k f.gathering_id)
        (written user (keep (λ f. not (is_some f.deleted_at)) fs))
      ≡ some_of
          (λ f. is_of k f.gathering_id && f.writer_id == user)
          (keep (λ f. not (is_some f.deleted_at)) fs)
some_of-written user k [] = refl
some_of-written user k (f ∷ fs) = elim (Option-cases f.gathering_id) [
  | inl e ↦ ground (arith, some_of-written user k fs)
  | inr (g, e) ↦ ground (arith, some_of-written user k fs)
]

module _ ⦃p : Platform⦄ where
  abbrev selected : List Uuid → World → List Gathering
  selected ids w =
      p.order_by (last_first (λ g. g.gathering_date) (λ g. g.id))
        (keep (λ g. one_of ids g.id) (active_gatherings w))

  abbrev found : List Uuid → World → List (Uuid × ListedGathering)
  found ids w = collect_by (λ g. g.id) listed (λ g shown. shown) (selected ids w) []

  found-Holds :
      (ids : List Uuid) (w : World)
      → Holds (λ k v. (v.id ≡ k) × (one_of ids k ≡ true)) (found ids w)
  found-Holds ids w =
      collect_by-Holds (λ g. g.id) listed (λ g shown. shown) _ (selected ids w) []
        (All-of_Memᴰ (selected ids w) λ g m. (
          refl,
          (Memᴰ-keep (λ g. one_of ids g.id) (active_gatherings w) g
              (Memᴰ-perm (p.order_by_perm (last_first (λ g. g.gathering_date) (λ g. g.id)) _) m)).1,
        ))
        (All-of_Memᴰ (selected ids w) λ g m v h. h) tt

  found-length : (ids : List Uuid) (w : World) → length (values (found ids w)) ≤ length ids
  found-length ids w = omega (
    arith,
    length-map (λ e. e.1) (found ids w),
    length-map (λ e. e.0) (found ids w),
    length-IsDistinct (keys (found ids w)) ids
        (collect_by-IsDistinct (λ g. g.id) listed (λ g shown. shown) (selected ids w) [] tt)
        (All-map (λ k. one_of ids k ≡ true) (λ e. e.0) (found ids w)
          (All-of_Memᴰ (found ids w) λ e m. (All-Memᴰ _ (found ids w) (found-Holds ids w) m).1)),
  )

  found-All :
      (P : Uuid → Type 0) (ids : List Uuid) (w : World)
      → ((k : Uuid) → one_of ids k ≡ true → P k)
      → All (λ v. P v.id) (values (found ids w))
  found-All P ids w f =
      All-map (λ v. P v.id) (λ e. e.1) (found ids w)
        (All-of_Memᴰ (found ids w) λ e m.
          let (same, listed) = All-Memᴰ _ (found ids w) (found-Holds ids w) m in
          f e.1.id (ap (one_of ids) same ∙ listed))

  -- The ids of a page are those of rows that fit.
  page_ids-Memᴰ :
      (limit : ℕ) (q : GatheringParticipation × Gathering → Bool) (user : Uuid) (w : World)
      (k : Uuid)
      → one_of (page_ids limit (keep q (joined user w))) k ≡ true
      → (row : GatheringParticipation × Gathering) × (q row ≡ true)
        × (row.1.id ≡ k)
        × IsJoined user w row.1
  unfolding page_ids
  page_ids-Memᴰ limit q user w k e =
      let (row, m, same) = one_of-map (λ row. row.1.id) _ k e in
      let (n, fits) =
        Memᴰ-keep q (joined user w) row
          (Memᴰ-group_by _ _ row (Memᴰ-perm (p.order_by_perm _ _) (Memᴰ-take limit _ row m))) in
      let (l, mine) =
        Memᴰ-keep (λ r. r.0.participant_id == user && is_accepted r.0.status) _ row n in
      let (stored, active, of) = Memᴰ-join (λ gp g. g.id == gp.gathering_id) _ _ row l in
      let (g, kept) = Memᴰ-keep (λ g. not (is_some g.deleted_at)) w.gatherings row.1 active in
      (
        row,
        fits,
        same,
        (g, ground arith, (row.0, stored, ground arith, ground arith, ground arith)),
      )

  page_ids-length :
      (limit : ℕ) (rows : List (GatheringParticipation × Gathering))
      → length (page_ids limit rows) ≤ limit
  unfolding page_ids
  page_ids-length limit rows = omega (
    arith,
    length-map {A = GatheringParticipation × Gathering} (λ row. row.1.id) _,
    length-take_le {A = GatheringParticipation × Gathering} limit _,
  )

  -- One that has not ended, in the range of the input.
  abbrev pub IsWaiting : Uuid → PaginatedDateRangeInput → World → Uuid → Type 0
  IsWaiting user input w id =
      (g : Gathering) × (g.id ≡ id)
      × IsJoined user w g
      × (is_some g.ended_at ≡ false)
      × (p.date input.min_date ≤ g.gathering_date)
      × (g.gathering_date ≤ p.date input.max_date)

  -- Reading a user’s gatherings returns and changes nothing. Every gathering on the page is not
  -- deleted, has not ended, lies in the range of the dates and has an accepted participation of
  -- the user; and there are no more than the limit.
  pub read-IsWaiting :
      (user : Uuid) (input : PaginatedDateRangeInput) (w : World)
      → IsPage (λ v. IsWaiting user input w v.id) input.limit w (read user input w)
  unfolding read find_by_user_id find_gatherings waiting_ids in_range
  read-IsWaiting user input w =
      let ids = waiting_ids user input w in
      (
        _,
        refl,
        found-All (IsWaiting user input w) ids w (λ k e.
            let (row, fits, same, mine) =
              page_ids-Memᴰ input.limit
                (λ row.
                  in_range input row.1.gathering_date
                  && from_cursor input row.1.gathering_date row.1.id
                  && not (is_some row.1.ended_at))
                user w k e in
            (row.1, same, mine, ground arith, ground arith, ground arith)),
        omega (arith, found-length ids w, page_ids-length input.limit _),
      )

  -- Whether a user wrote a feed of a gathering that is not deleted.
  abbrev pub wrote : Uuid → World → Uuid → Bool
  wrote user w gathering =
      some_of (λ f. is_of gathering f.gathering_id && f.writer_id == user) (active_feeds w)

  -- One that has ended and of which the user wrote no feed.
  abbrev pub IsUnwritten : Uuid → World → Uuid → Type 0
  IsUnwritten user w id =
      (g : Gathering) × (g.id ≡ id)
      × IsJoined user w g
      × (is_some g.ended_at ≡ true)
      × (wrote user w g.id ≡ false)

  -- Reading the gatherings without a feed returns and changes nothing. Every gathering on the page
  -- is not deleted, has ended, has an accepted participation of the user and no feed of the user
  -- that is not deleted; and there are no more than the limit.
  pub read_unwritten_feed-IsUnwritten :
      (user : Uuid) (input : DateIdPaginationInput) (w : World)
      → IsPage (λ v. IsUnwritten user w v.id) input.limit w (read_unwritten_feed user input w)
  unfolding read_unwritten_feed find_gatherings_without_feed_by_user_id find_gatherings
      unwritten_ids
  read_unwritten_feed-IsUnwritten user input w =
      let ids = unwritten_ids user input w in
      (
        _,
        refl,
        found-All (IsUnwritten user w) ids w (λ k e.
            let (row, fits, same, mine) =
              page_ids-Memᴰ input.limit
                (λ row.
                  not (is_some row.1.deleted_at)
                  && is_some row.1.ended_at
                  && not
                      (some_of (λ f. is_of row.1.id f.gathering_id) (written user (active_feeds w)))
                  && before_date_id input.cursor row.1.gathering_date row.1.id)
                user w k e in
            (
              row.1,
              same,
              mine,
              ground arith,
              ground (arith, some_of-written user row.1.id w.feeds),
            )),
        omega (arith, found-length ids w, page_ids-length input.limit _),
      )
