-- ===== src/Friends/Relation.antt =====
-- The relation of two users that the table of friends holds, and how the writes change it.
pub mod Lookups
pub mod Writes
use be.Prelude.{
  ℕ, Bool, true, false, not, ◌&&◌, ◌||◌, Option, none, some, List, [], ◌∷◌, ◌≡◌, refl, ◌≢◌, arith,
  ◌==◌, if◌then◌else◌, All, keep, replace, some_of, Bool-cases, inl, inr,
}
use mathlib.Core.List.{Memᴰ}
use be.Store.{Uuid, Friend, FriendStatus}
use be.Friends.Repository.{links, friend_clash}

-- The same two users, in either order.
abbrev pub same_pair : Uuid → Uuid → Uuid → Uuid → Bool
same_pair a b c d = (a == c && b == d) || (a == d && b == c)

-- The status of the relation of two users: that of the first row that links them.
abbrev pub status_of : Uuid → Uuid → List Friend → Option FriendStatus
status_of a b [] = none
status_of a b (f ∷ fs) = if links a b f then some f.status else status_of a b fs

-- No two rows have one id or link the same two users, and none is marked as reported.
abbrev pub IsDistinctFrom : Friend → Friend → Type 0
IsDistinctFrom f g = (g.id ≢ f.id) × (links f.sender_id f.receiver_id g ≡ false)

abbrev pub IsValid : List Friend → Type 0
IsValid [] = Unit
IsValid (f ∷ fs) = All (IsDistinctFrom f) fs × (f.status ≢ FriendStatus.reported) × IsValid fs
