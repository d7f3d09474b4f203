-- ===== src/UseCases/Outcomes.antt =====
-- The answers of the use cases of src/application/use-cases/friend and
-- src/application/use-cases/gathering beside those of the services that they call.
use Prim.Native.String.{◌++◌ as append}
use be.Prelude.{none, ◌≡◌, refl}
use be.Store.{
  Uuid, NotificationType, World, User, Result, ok, err, Platform, ⊤, Action, background, ◌>>◌,
  ◌>>=◌,
}
use be.Users.Reader as UsersReader
use be.Friends.Service.{FriendPrototype, request, accept}
use be.Notifications.Manager.{notice}
use be.Notifications.Service.{create_v2}
use be.Notifications.Quiet.{
  IsQuiet, IsQuiet-refl, create_v2-IsQuiet, bind-IsQuiet, IsQuiet-same, user_read-state,
}
use be.UseCases.Friendship.{execute_request, execute_acceptance, notify_request, notify_acceptance}

-- The use case answers as the service does, and what it adds to the state is what notifying writes.
abbrev pub Adds : Result ⊤ × World → Result ⊤ × World → Type 0
Adds (r, w) (r', w') = (r' ≡ r) × IsQuiet w w'

module _ ⦃p : Platform⦄ where
  beside-Adds :
      (o : Result ⊤ × World) (m : Action ⊤)
      → ((w : World) → IsQuiet w (m w).1)
      → Adds o (((λ (_ : World). o) >> background m) o.1)
  beside-Adds (ok tt, w) m quiet = (refl, quiet w)
  beside-Adds (err e, w) m quiet = (refl, IsQuiet-refl w)

  with_user :
      (id : Uuid) (k : User → Action ⊤) (w : World)
      → ((u : User) (v : World) → IsQuiet v (k u v).1)
      → IsQuiet w ((UsersReader.read_one id >>= k) w).1
  with_user id k w quiet =
      bind-IsQuiet w (UsersReader.read_one id w) k
        (IsQuiet-same w (UsersReader.read_one id w).1 (user_read-state id w)) quiet

  notify_request-IsQuiet : (s r : Uuid) (w : World) → IsQuiet w (notify_request s r w).1
  unfolding notify_request
  notify_request-IsQuiet s r w =
      let told = λ (receiver sender : User).
        notice receiver NotificationType.friend_request "친구 요청"
          (append sender.name "님이 친구 요청을 보냈어요!") none in
      with_user r
        (λ receiver. UsersReader.read_one s >>= λ sender. create_v2 (told receiver sender)) w
        (λ receiver v.
          with_user s (λ sender. create_v2 (told receiver sender)) v
            (λ sender x. create_v2-IsQuiet (told receiver sender) x))

  notify_acceptance-IsQuiet : (s r : Uuid) (w : World) → IsQuiet w (notify_acceptance s r w).1
  unfolding notify_acceptance
  notify_acceptance-IsQuiet s r w =
      let told = λ (sender receiver : User).
        notice sender NotificationType.friend_request_accepted "친구 수락"
          (append receiver.name "님이 친구 요청을 수락했어요!") none in
      with_user s
        (λ sender. UsersReader.read_one r >>= λ receiver. create_v2 (told sender receiver)) w
        (λ sender v.
          with_user r (λ receiver. create_v2 (told sender receiver)) v
            (λ receiver x. create_v2-IsQuiet (told sender receiver) x))

  -- The use case of a friend request answers as the service does, and to the state that the
  -- service leaves it adds only notifications, tokens, published events and what was read of the
  -- clock and the generator, also where the notice throws.
  pub execute_request-Adds :
      (input : FriendPrototype) (w : World) → Adds (request input w) (execute_request input w)
  unfolding execute_request
  execute_request-Adds input w =
      beside-Adds (request input w) (notify_request input.sender_id input.receiver_id)
        (notify_request-IsQuiet input.sender_id input.receiver_id)

  pub execute_acceptance-Adds :
      (s r : Uuid) (w : World) → Adds (accept s r w) (execute_acceptance s r w)
  unfolding execute_acceptance
  execute_acceptance-Adds s r w =
      beside-Adds (accept s r w) (notify_acceptance s r) (notify_acceptance-IsQuiet s r)
