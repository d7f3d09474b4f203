-- ===== src/Friends/Symmetry.antt =====
-- The direction of a request, and `accept` of src/domain/services/friends/friends.service.ts.
use be.Prelude.{Bool, true, some, ◌≡◌, arith, ap, fun_ext, or_comm, ◌&&◌, ◌==◌}
use mathlib.Core.List.{Memᴰ}
use be.Store.{Uuid, Friend, FriendStatus, Platform, World, ok}
use be.Friends.Repository.{links}
use be.Friends.Relation.{status_of, IsValid}
use be.Friends.Relation.Lookups.{status_of-Memᴰ}
use be.Friends.Transitions.{accept-Turns}
use be.Friends.Verdicts.{accept-verdict}
use be.Friends.Service.{accept}

links_self : (f : Friend) → links f.sender_id f.receiver_id f ≡ true
links_self f = ground arith

links_comm : (a b : Uuid) → ◌≡◌ {A = Friend → Bool} (links a b) (links b a)
links_comm a b =
    fun_ext (λ f.
      or_comm (f.sender_id == a && f.receiver_id == b) (f.sender_id == b && f.receiver_id == a))

module _ ⦃p : Platform⦄ where
  pub accept_comm : (a b : Uuid) (w : World) → accept a b w ≡ accept b a w
  unfolding accept
  accept_comm a b w = ground (arith, ap (λ q. p.find_first q w.friends) (links_comm a b))

  -- On a valid table, if a request is pending, its sender who accepts with the receiver named as
  -- the sender succeeds, and the two are friends.
  pub accept-by_sender :
      (w : World) (f : Friend)
      → IsValid w.friends
      → Memᴰ f w.friends
      → f.status ≡ FriendStatus.pending
      → let (r, w') = accept f.receiver_id f.sender_id w in
        (r ≡ ok tt) × (status_of f.sender_id f.receiver_id w'.friends ≡ some FriendStatus.accepted)
  accept-by_sender w f v m pending =
      let linked = status_of-Memᴰ f.sender_id f.receiver_id w.friends f v m (links_self f) in
      let told = accept-verdict f.sender_id f.receiver_id w v in
      rw (accept_comm f.receiver_id f.sender_id w)
        (ground (arith, linked, told, accept-Turns f.sender_id f.receiver_id w v))
