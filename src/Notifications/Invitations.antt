-- ===== src/Notifications/Invitations.antt =====
-- Whom `sendGatheringCreation` of src/domain/components/notification/notification-manager.ts tells
-- of a new gathering, and what it publishes.
use be.Prelude.{
  ℕ, suc, ◌+◌, String, Bool, true, false, not, ◌&&◌, none, some, List, [], ◌∷◌, ◌≡◌, refl, arith,
  ◌==◌, str_eq, is_some, some_of, one_of, how_many, keep, Option-cases, inl, inr, if◌then◌else◌,
  ◌∙◌,
}
use mathlib.Core.Path.{subst}
use be.Store.{
  Uuid, User, Notification, NotificationType, NotificationPayload, World, Result, ok, err, Platform,
  ⊤, user_not_found, some_of-none, some_of-Memᴰ,
}
use be.Users.Repository.{is_active}
use be.Notifications.Entities.{notification}
use be.Notifications.Repository.{notification_clash}
use be.Notifications.Manager.{create, invitation, to_invitees, send_gathering_creation}
use be.Notifications.Quiet.{IsQuiet, send_gathering_creation-IsQuiet}

abbrev is_invitation : NotificationType → Bool
is_invitation NotificationType.gathering_invitation_received = true
is_invitation _ = false

-- An invitation to a gathering, for this user.
abbrev pub invites : Uuid → Notification → Bool
invites user n = n.user_id == user && is_invitation n.type

-- What is published for this account reaches the device with the token.
abbrev pub reaches : String → User → Bool
reaches token u = elim u.notification_token [
  | none ↦ false
  | some t ↦ not (str_eq t "") && u.service_notification_consent && str_eq t token
]

abbrev pub has_token : String → NotificationPayload → Bool
has_token token e = str_eq e.token token

-- An active account among the invitees, other than the host.
abbrev pub is_invited : Uuid → List Uuid → User → Bool
is_invited host ids u = not (is_some u.deleted_at) && one_of ids u.id && not (u.id == host)

one_of-keep :
    (host : Uuid) (ids : List Uuid) (id : Uuid)
    → one_of (keep (λ x. not (x == host)) ids) id ≡ (one_of ids id && not (id == host))
one_of-keep host [] id = refl
one_of-keep host (x ∷ ids) id = ground (arith, one_of-keep host ids id)

how_many-invited :
    (q : User → Bool) (host : Uuid) (ids : List Uuid) (users : List User)
    → how_many q (
        keep
          (λ u. not (is_some u.deleted_at) && one_of (keep (λ x. not (x == host)) ids) u.id)
          users)
      ≡ how_many (λ u. is_invited host ids u && q u) users
how_many-invited q host ids [] = refl
how_many-invited q host ids (u ∷ users) =
    ground (arith, one_of-keep host ids u.id, how_many-invited q host ids users)

add_zero : (n : ℕ) → n + 0 ≡ n
add_zero n = omega arith

module _ ⦃p : Platform⦄ where
  abbrev row_of : User → User → World → Notification
  row_of host v w = notification (invitation host v) (p.uuid w.draws) (p.clock w.ticks)

  -- No stored notification has an identifier that the generator has yet to give.
  abbrev pub IsFresh : World → Type 0
  IsFresh w = (m : ℕ) → some_of (λ n. p.uuid (w.draws + m) == n.id) w.notifications ≡ false

  -- Of invitations and events, those for a user and a token have grown by these numbers.
  abbrev Grown : Uuid → String → World → World → ℕ → ℕ → Type 0
  Grown user token w w' m n =
      (how_many (invites user) w'.notifications ≡ how_many (invites user) w.notifications + m)
      × (how_many (has_token token) w'.published ≡ how_many (has_token token) w.published + n)

  later : (d m : ℕ) → (p.uuid (d + suc m) == p.uuid d) ≡ false
  later d m = ground (arith, p.uuid_injective (d + suc m) d)

  stored_table :
      (host v : User) (w : World)
      → IsFresh w
      → p.create notification_clash (row_of host v w) w.notifications
        ≡ some (row_of host v w ∷ w.notifications)
  stored_table host v w fresh =
      let free : some_of (notification_clash (row_of host v w)) w.notifications ≡ false =
        subst (λ k. some_of (λ (n : Notification). p.uuid k == n.id) w.notifications ≡ false)
          (add_zero w.draws) (fresh 0) in
      p.create_lem notification_clash (row_of host v w) w.notifications ∙ rw free refl

  created_rows :
      (host v : User) (w : World)
      → p.is_test ≡ false
      → IsFresh w
      → ((create (invitation host v) w).1.notifications ≡ row_of host v w ∷ w.notifications)
        × ((create (invitation host v) w).1.draws ≡ suc w.draws)
  unfolding create
  created_rows host v w live fresh =
      ground (arith, stored_table host v w fresh, Option-cases v.notification_token)

  created-IsFresh :
      (host v : User) (w : World)
      → p.is_test ≡ false
      → IsFresh w
      → IsFresh (create (invitation host v) w).1
  created-IsFresh host v w live fresh m =
      let (rows, draws) = created_rows host v w live fresh in
      let used : some_of (λ (n : Notification). p.uuid (w.draws + suc m) == n.id)
            (row_of host v w ∷ w.notifications)
          ≡ false =
        ground (arith, fresh (suc m), later w.draws m) in
      let next : w.draws + suc m ≡ (create (invitation host v) w).1.draws + m =
        omega (arith, draws) in
      rw rows (
        subst
          (λ k.
            some_of (λ (n : Notification). p.uuid k == n.id) (row_of host v w ∷ w.notifications)
            ≡ false)
          next used)

  created_events :
      (token : String) (host v : User) (w : World)
      → p.is_test ≡ false
      → how_many (has_token token) (create (invitation host v) w).1.published
        ≡ how_many (has_token token) w.published + (if reaches token v then 1 else 0)
  unfolding create
  created_events token host v w live = elim (Option-cases v.notification_token) [
    | inl e ↦ ground arith
    | inr (t, e) ↦ ground arith
  ]

  to_invitees-Grown :
      (user : Uuid) (token : String) (host : User) (us : List User) (w : World)
      → p.is_test ≡ false
      → IsFresh w
      → ((to_invitees host us w).0 ≡ ok tt)
        × Grown user token w
            (to_invitees host us w).1
            (how_many (λ v. v.id == user) us)
            (how_many (reaches token) us)
  unfolding to_invitees
  to_invitees-Grown user token host [] w live fresh = ground arith
  to_invitees-Grown user token host (v ∷ us) w live fresh =
      let w1 = (create (invitation host v) w).1 in
      let (rows, draws) = created_rows host v w live fresh in
      let events = created_events token host v w live in
      let rest =
        to_invitees-Grown user token host us w1 live (created-IsFresh host v w live fresh) in
      (rest.0, (ground (arith, rest.1.0, rows), ground (arith, rest.1.1, events)))

  -- What a call that returns has sent, and how one that throws leaves the state.
  abbrev pub Sent : Uuid → List Uuid → Uuid → String → World → Result ⊤ × World → Type 0
  Sent host ids user token w (ok _, w') =
      (some_of (is_active host) w.users ≡ true)
      × (how_many (invites user) w'.notifications
          ≡ how_many (invites user) w.notifications
            + how_many (λ u. is_invited host ids u && u.id == user) w.users)
      × (how_many (has_token token) w'.published
          ≡ how_many (has_token token) w.published
            + how_many (λ u. is_invited host ids u && reaches token u) w.users)
      × IsQuiet w w'
  Sent host ids user token w (err e, w') =
      (some_of (is_active host) w.users ≡ false) × (e ≡ user_not_found) × (w' ≡ w)

  -- Outside of tests, and where no stored notification has an identifier that is yet to be
  -- generated, a notice of a new gathering throws and changes nothing if the host has no active
  -- account. Otherwise it returns and sends, for a user and a token, as many invitations as there
  -- are active accounts of the user among the invitees other than the host, and as many events as
  -- there are such accounts that consent and have the token; beside notifications and events, only
  -- tokens and what was read of the clock and the generator may change.
  pub send_gathering_creation-Sent :
      (host : Uuid) (ids : List Uuid) (user : Uuid) (token : String) (w : World)
      → p.is_test ≡ false
      → IsFresh w
      → Sent host ids user token w (send_gathering_creation host ids w)
  unfolding send_gathering_creation
  send_gathering_creation-Sent host ids user token w live fresh =
      let invited =
        λ (u : User). not (is_some u.deleted_at) && one_of (keep (λ x. not (x == host)) ids) u.id in
      elim (Option-cases (p.find_first (is_active host) w.users)) [
        | inl missing ↦ ground (
          arith,
          some_of-none (is_active host) w.users
              (p.find_first_none (is_active host) w.users missing),
        )
        | inr (u, found) ↦
            let (m, fits) = p.find_first_some (is_active host) w.users u found in
            ground (
              arith,
              some_of-Memᴰ (is_active host) w.users u m fits,
              p.find_many_lem invited w.users,
              to_invitees-Grown user token u (p.find_many invited w.users) w live fresh,
              how_many-invited (λ v. v.id == user) host ids w.users,
              how_many-invited (reaches token) host ids w.users,
              send_gathering_creation-IsQuiet host ids w,
            )
      ]
