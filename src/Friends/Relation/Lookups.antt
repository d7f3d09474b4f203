-- ===== src/Friends/Relation/Lookups.antt =====
-- What a query for two users finds in a valid table.
use be.Prelude.{true, false, none, some, List, [], ◌∷◌, ◌≡◌, refl, arith, All, All-Memᴰ}
use mathlib.Core.List.{Memᴰ}
use be.Store.{Uuid, Friend}
use be.Friends.Repository.{links}
use be.Friends.Relation.{status_of, IsDistinctFrom, IsValid}

-- Two rows that link the same users are not distinct.
links_distinct :
    (a b : Uuid) (f g : Friend) → IsDistinctFrom f g → links a b g ≡ true → links a b f ≡ false
links_distinct a b f g h e = ground arith

pub status_of-Memᴰ :
    (a b : Uuid) (t : List Friend) (f : Friend)
    → IsValid t
    → Memᴰ f t
    → links a b f ≡ true
    → status_of a b t ≡ some f.status
status_of-Memᴰ a b [] f h m e = elim m [ ]
status_of-Memᴰ a b (g ∷ t) f h (Memᴰ.head same) e = ground arith
status_of-Memᴰ a b (g ∷ t) f (h, _, hs) (Memᴰ.tail m) e = ground (
  arith,
  links_distinct a b g f (All-Memᴰ (IsDistinctFrom g) t h m) e,
  status_of-Memᴰ a b t f hs m e,
)

pub status_of-none :
    (a b : Uuid) (t : List Friend) → All (λ f. links a b f ≡ false) t → status_of a b t ≡ none
status_of-none a b [] h = refl
status_of-none a b (f ∷ t) h = ground (arith, status_of-none a b t h.1)
