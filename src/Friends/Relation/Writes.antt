-- ===== src/Friends/Relation/Writes.antt =====
-- How adding, updating and removing rows change a valid table and the relations that it holds.
use be.Prelude.{
  Bool, true, false, not, ◌&&◌, none, some, List, [], ◌∷◌, ◌≡◌, refl, ◌≢◌, arith, ◌==◌,
  if◌then◌else◌, All, keep, replace, some_of, All-Memᴰ, sym, Bool-cases, inl, inr,
}
use mathlib.Core.List.{Memᴰ}
use be.Store.{Uuid, Friend, FriendStatus}
use be.Friends.Repository.{links, friend_clash}
use be.Friends.Relation.{same_pair, status_of, IsDistinctFrom, IsValid}

-- A row that clashes with no other and links two users without a relation is distinct from all.
IsDistinctFrom-new :
    (r : Friend) (t : List Friend)
    → some_of (friend_clash r) t ≡ false
    → status_of r.sender_id r.receiver_id t ≡ none
    → All (IsDistinctFrom r) t
IsDistinctFrom-new r [] h e = tt
IsDistinctFrom-new r (g ∷ t) h e = ground (arith, IsDistinctFrom-new r t)

pub cons-IsValid :
    (r : Friend) (t : List Friend)
    → IsValid t
    → r.status ≡ FriendStatus.pending
    → some_of (friend_clash r) t ≡ false
    → status_of r.sender_id r.receiver_id t ≡ none
    → IsValid (r ∷ t)
cons-IsValid r t v s h e = (IsDistinctFrom-new r t h e, ground arith, v)

All-keep : (q : Friend → Bool) (P : Friend → Type 0) (t : List Friend) → All P t → All P (keep q t)
All-keep q P [] h = tt
All-keep q P (f ∷ t) h = ground (arith, All-keep q P t h.1)

pub keep-IsValid : (q : Friend → Bool) (t : List Friend) → IsValid t → IsValid (keep q t)
keep-IsValid q [] h = tt
keep-IsValid q (f ∷ t) h = ground (arith, keep-IsValid q t h.2, All-keep q (IsDistinctFrom f) t h.0)

links_same : (a b c d : Uuid) (f : Friend) → same_pair a b c d ≡ true → links a b f ≡ links c d f
links_same a b c d f h = elim (Bool-cases (a == c && b == d)) [
  | inl e ↦ ground arith
  | inr e ↦ ground arith
]

pub links_other :
    (a b c d : Uuid) (f : Friend)
    → same_pair a b c d ≡ false
    → links a b f ≡ true
    → links c d f ≡ false
links_other a b c d f h e = ground arith

-- After the rows of two users are removed they have no relation.
pub status_of-keep_same :
    (a b c d : Uuid) (t : List Friend)
    → same_pair a b c d ≡ true
    → status_of c d (keep (λ f. not (links a b f)) t) ≡ none
status_of-keep_same a b c d [] h = refl
status_of-keep_same a b c d (f ∷ t) h = elim (Bool-cases (links a b f)) [
  | inl e ↦ rw e (status_of-keep_same a b c d t h)
  | inr e ↦ rw (e, sym (links_same a b c d f h), e) (status_of-keep_same a b c d t h)
]

-- The relations of other pairs stay.
pub status_of-keep_other :
    (a b c d : Uuid) (t : List Friend)
    → same_pair a b c d ≡ false
    → status_of c d (keep (λ f. not (links a b f)) t) ≡ status_of c d t
status_of-keep_other a b c d [] h = refl
status_of-keep_other a b c d (f ∷ t) h = elim (Bool-cases (links a b f)) [
  | inl e ↦ rw (e, links_other a b c d f h e) (status_of-keep_other a b c d t h)
  | inr e ↦ rw (e, status_of-keep_other a b c d t h)
]

module _ (change : Friend → Friend)
    (same : (f : Friend)
      → ((change f).id ≡ f.id)
        × ((change f).sender_id ≡ f.sender_id)
        × ((change f).receiver_id ≡ f.receiver_id)
        × ((change f).status ≡ FriendStatus.accepted))
    (i : Uuid) where
  All-replace :
      (f : Friend) (t : List Friend)
      → All (IsDistinctFrom f) t
      → All (IsDistinctFrom f) (replace (λ g. g.id == i) change t)
  All-replace f [] h = tt
  All-replace f (g ∷ t) h = ground (arith, same g, All-replace f t h.1)

  IsDistinctFrom-change :
      (f : Friend) (t : List Friend) → All (IsDistinctFrom f) t → All (IsDistinctFrom (change f)) t
  IsDistinctFrom-change f [] h = tt
  IsDistinctFrom-change f (g ∷ t) h = ground (arith, same f, IsDistinctFrom-change f t h.1)

  pub replace-IsValid : (t : List Friend) → IsValid t → IsValid (replace (λ g. g.id == i) change t)
  replace-IsValid [] h = tt
  replace-IsValid (f ∷ t) h = ground (
    arith,
    same f,
    replace-IsValid t h.2,
    All-replace f t h.0,
    IsDistinctFrom-change f (replace (λ g. g.id == i) change t),
  )

  -- Where no row has the id nothing changes.
  status_of-replace_absent :
      (f : Friend) (c d : Uuid) (t : List Friend)
      → f.id ≡ i
      → All (IsDistinctFrom f) t
      → status_of c d (replace (λ g. g.id == i) change t) ≡ status_of c d t
  status_of-replace_absent f c d [] e h = refl
  status_of-replace_absent f c d (g ∷ t) e h =
      ground (arith, status_of-replace_absent f c d t e h.1)

  -- The relation that the updated row stands for is accepted, and other relations stay.
  pub status_of-replace :
      (f : Friend) (c d : Uuid) (t : List Friend)
      → IsValid t
      → Memᴰ f t
      → f.id ≡ i
      → status_of c d (replace (λ g. g.id == i) change t)
        ≡ (if links c d f then some FriendStatus.accepted else status_of c d t)
  status_of-replace f c d [] v m e = elim m [ ]
  status_of-replace f c d (g ∷ t) v (Memᴰ.head same_row) e =
      ground (arith, same g, status_of-replace_absent g c d t, v.0)
  status_of-replace f c d (g ∷ t) v (Memᴰ.tail m) e =
      ground (arith, same g, All-Memᴰ (IsDistinctFrom g) t v.0 m, status_of-replace f c d t v.2 m e)

-- No relation of a valid table is a reported one.
pub status_of-ne-reported :
    (a b : Uuid) (t : List Friend) → IsValid t → status_of a b t ≢ some FriendStatus.reported
status_of-ne-reported a b [] v = cc
status_of-ne-reported a b (f ∷ t) v = ground (arith, status_of-ne-reported a b t v.2)
