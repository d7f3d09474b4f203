-- ===== src/Notifications/Quiet.antt =====
-- Which tables the notices of src/domain/components/notification/notification-manager.ts write.
use Prim.Native.String.{◌++◌ as append}
use be.Prelude.{
  Bool, true, false, not, some, List, [], ◌∷◌, ◌≡◌, refl, arith, Option-cases, inl, inr,
  if◌then◌else◌, keep, ◌==◌, ◌&&◌, is_some,
}
use be.Store.{
  Uuid, User, World, Result, ok, err, Action, Platform, ⊤, rolled_back, for_each, background, pure,
  NotificationType, ◌>>=◌, try_catch,
}
use be.Users.Repository.{is_active}
use be.Prelude.{one_of}
use be.Users.Reader as UsersReader
use be.Gatherings.InvitationsReader
use be.Notifications.Entities.{NotificationInput}
use be.Notifications.Manager.{
  create, notice, invitation, to_invitees, send_gathering_creation, feed_notice, tagged_notice,
  to_tagged, notify_friend_feed_creation, to_members, notify_gathering_feed_creation,
}
use be.Notifications.Service.{create_v2}

-- From `w` to `w'` only what notifying writes has changed.
abbrev pub IsQuiet : World → World → Type 0
IsQuiet w w' = rolled_back w w' ≡ w'

IsQuiet-trans : (w w' w'' : World) → IsQuiet w w' → IsQuiet w' w'' → IsQuiet w w''
unfolding rolled_back
IsQuiet-trans w w' w'' h k = ground arith

module _ ⦃p : Platform⦄ where
  abbrev invited_users : Uuid → List Uuid → World → List User
  invited_users host ids w =
      p.find_many
        (λ u. not (is_some u.deleted_at) && one_of (keep (λ id. not (id == host)) ids) u.id) w.users

  create-IsQuiet : (input : NotificationInput) (w : World) → IsQuiet w (create input w).1
  unfolding create rolled_back
  create-IsQuiet input w = ground arith

  pub create_v2-IsQuiet : (input : NotificationInput) (w : World) → IsQuiet w (create_v2 input w).1
  unfolding create_v2 rolled_back
  create_v2-IsQuiet input w = ground arith

  pub IsQuiet-refl : (w : World) → IsQuiet w w
  unfolding rolled_back
  IsQuiet-refl w = refl

  pub bind-IsQuiet :
      {A B : Type 0} (w : World) (o : Result A × World) (k : A → Action B)
      → IsQuiet w o.1
      → ((a : A) (w' : World) → IsQuiet w' (k a w').1)
      → IsQuiet w (((λ (_ : World). o) >>= k) w).1
  bind-IsQuiet w (ok a, w') k h quiet = IsQuiet-trans w w' (k a w').1 h (quiet a w')
  bind-IsQuiet w (err e, w') k h quiet = h

  for_each-IsQuiet :
      {A : Type 0} (f : A → Action ⊤) (xs : List A) (w : World)
      → ((a : A) (w' : World) → IsQuiet w' (f a w').1)
      → IsQuiet w (for_each f xs w).1
  for_each-IsQuiet f [] w quiet = IsQuiet-refl w
  for_each-IsQuiet f (x ∷ xs) w quiet =
      bind-IsQuiet w (f x w) (λ _. for_each f xs) (quiet x w)
        (λ _ w'. for_each-IsQuiet f xs w' quiet)

  to_invitees-IsQuiet : (u : User) (us : List User) (w : World) → IsQuiet w (to_invitees u us w).1
  unfolding to_invitees
  to_invitees-IsQuiet u us w =
      for_each-IsQuiet (λ invitee. background (create (invitation u invitee))) us w
        (λ invitee w'. create-IsQuiet (invitation u invitee) w')

  -- Notifying of a new gathering changes only notifications, tokens, published events and what was
  -- read of the clock and the generator.
  pub send_gathering_creation-IsQuiet :
      (host : Uuid) (ids : List Uuid) (w : World) → IsQuiet w (send_gathering_creation host ids w).1
  unfolding send_gathering_creation
  send_gathering_creation-IsQuiet host ids w =
      elim (Option-cases (p.find_first (is_active host) w.users)) [
        | inl e ↦ ground (arith, IsQuiet-refl w)
        | inr (u, e) ↦
            ground (arith, IsQuiet-refl w, to_invitees-IsQuiet u (invited_users host ids w) w)
      ]

  -- What is logged instead of thrown is as quiet.
  logged-IsQuiet :
      (w : World) (o : Result ⊤ × World)
      → IsQuiet w o.1
      → IsQuiet w (try_catch (λ (_ : World). o) (λ _. pure tt) w).1
  logged-IsQuiet w (ok a, w') h = h
  logged-IsQuiet w (err e, w') h = h

  pub user_read-state : (id : Uuid) (w : World) → (UsersReader.read_one id w).1 ≡ w
  unfolding UsersReader.read_one
  user_read-state id w = ground arith

  pub IsQuiet-same : (w w' : World) → w' ≡ w → IsQuiet w w'
  IsQuiet-same w w' e = rw e (IsQuiet-refl w)

  feed_notice-IsQuiet :
      (feed_id : Uuid) (u member : User) (w : World) → IsQuiet w (feed_notice feed_id u member w).1
  unfolding feed_notice
  feed_notice-IsQuiet feed_id u member w =
      create-IsQuiet
        (notice member NotificationType.gathering_feed_writen "피드"
          (append u.name "님이 약속 추억 피드를 올렸어요!") (some feed_id))
        w

  to_members-IsQuiet :
      (feed_id writer : Uuid) (members : List User) (w : World)
      → IsQuiet w (to_members feed_id writer members w).1
  unfolding to_members
  to_members-IsQuiet feed_id writer [] w = IsQuiet-refl w
  to_members-IsQuiet feed_id writer (m ∷ rest) w =
      bind-IsQuiet w (UsersReader.read_one writer w)
        (λ u. for_each (feed_notice feed_id u) (m ∷ rest))
        (IsQuiet-same w (UsersReader.read_one writer w).1 (user_read-state writer w))
        (λ u w'.
          for_each-IsQuiet (feed_notice feed_id u) (m ∷ rest) w'
            (λ member v. feed_notice-IsQuiet feed_id u member v))

  unless-IsQuiet :
      (c : Bool) (w : World) (m : Action ⊤)
      → IsQuiet w (m w).1
      → IsQuiet w ((if c then pure tt else m) w).1
  unless-IsQuiet true w m h = IsQuiet-refl w
  unless-IsQuiet false w m h = h

  pub notify_gathering_feed_creation-IsQuiet :
      (feed_id writer gathering : Uuid) (w : World)
      → IsQuiet w (notify_gathering_feed_creation feed_id writer gathering w).1
  unfolding notify_gathering_feed_creation
  notify_gathering_feed_creation-IsQuiet feed_id writer gathering w =
      let others = keep (λ (member : User). not (member.id == writer)) in
      let read = InvitationsReader.read_participants_with_notice_info gathering in
      let to_others = λ (members : List User). to_members feed_id writer (others members) in
      unless-IsQuiet p.is_test w (try_catch (read >>= to_others) (λ _. pure tt)) (
        logged-IsQuiet w ((read >>= to_others) w) (
          bind-IsQuiet w (read w) to_others (IsQuiet-refl w)
            (λ members w'. to_members-IsQuiet feed_id writer (others members) w')))

  tagged_notice-IsQuiet :
      (feed_id : Uuid) (u tagged : User) (w : World)
      → IsQuiet w (tagged_notice feed_id u tagged w).1
  unfolding tagged_notice
  tagged_notice-IsQuiet feed_id u tagged w =
      create-IsQuiet
        (notice tagged NotificationType.friend_feed_writen "피드" (append u.name "님이 추억 피드를 올렸어요!")
          (some feed_id))
        w

  to_tagged-IsQuiet :
      (feed_id : Uuid) (u : User) (tagged : List User) (w : World)
      → IsQuiet w (to_tagged feed_id u tagged w).1
  unfolding to_tagged
  to_tagged-IsQuiet feed_id u tagged w =
      for_each-IsQuiet (tagged_notice feed_id u) tagged w
        (λ x v. tagged_notice-IsQuiet feed_id u x v)

  pub notify_friend_feed_creation-IsQuiet :
      (feed_id writer : Uuid) (ids : List Uuid) (w : World)
      → IsQuiet w (notify_friend_feed_creation feed_id writer ids w).1
  unfolding notify_friend_feed_creation
  notify_friend_feed_creation-IsQuiet feed_id writer [] w = IsQuiet-refl w
  notify_friend_feed_creation-IsQuiet feed_id writer (id ∷ rest) w =
      let read = UsersReader.read_multi (id ∷ rest) in
      let notify = λ (u : User). read >>= λ tagged. to_tagged feed_id u tagged in
      unless-IsQuiet p.is_test w (try_catch (UsersReader.read_one writer >>= notify) (λ _. pure tt))
        (logged-IsQuiet w ((UsersReader.read_one writer >>= notify) w) (
          bind-IsQuiet w (UsersReader.read_one writer w) notify
            (IsQuiet-same w (UsersReader.read_one writer w).1 (user_read-state writer w))
            (λ u w'.
              bind-IsQuiet w' (read w') (λ tagged. to_tagged feed_id u tagged) (IsQuiet-refl w')
                (λ tagged v. to_tagged-IsQuiet feed_id u tagged v))))
