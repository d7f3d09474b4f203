-- ===== src/Prelude/Order.antt =====
-- Strict orders as Boolean tests, as an `ORDER BY` of several columns composes them, and the lists
-- that they sort.
use mathlib.Core.Path.{◌≡◌}
use mathlib.Core.Bool.{Bool, true, false, not, ◌&&◌, ◌||◌}
use mathlib.Core.List.{List, [], ◌∷◌}
use Prim.Native.Nat.{ℕ}
use native.Mathlib.Omega.{arith}
use be.Prelude.Tests.{ltb}
use be.Prelude.Lists.{All}

-- A strict order in which elements may tie.
pub record IsOrder {A : Type 0} (before : A → A → Bool) : Type 0 where
  pub asym : (x y : A) → before x y ≡ true → before y x ≡ false
  pub cotrans : (x y z : A) → before x y ≡ false → before y z ≡ false → before x z ≡ false

abbrev pub Pairs : {A : Type 0} → (A → A → Type 0) → List A → Type 0
Pairs R [] = Unit
Pairs R (x ∷ xs) = All (R x) xs × Pairs R xs

-- No element stands behind one that it comes before.
abbrev pub IsSorted : {A : Type 0} → (A → A → Bool) → List A → Type 0
IsSorted before = Pairs (λ x y. before y x ≡ false)

module _ {A : Type 0} where
  abbrev pub asc : (A → ℕ) → A → A → Bool
  asc key x y = ltb (key x) (key y)

  abbrev pub desc : (A → ℕ) → A → A → Bool
  desc key x y = ltb (key y) (key x)

  -- A further column, for the rows that tie.
  abbrev pub then_by : (A → A → Bool) → (A → A → Bool) → A → A → Bool
  then_by first second x y = first x y || (not (first y x) && second x y)

  pub asc-IsOrder : (key : A → ℕ) → IsOrder (asc key)
  asc-IsOrder key = record { asym = λ x y e. ground arith; cotrans = λ x y z e f. ground arith }

  pub desc-IsOrder : (key : A → ℕ) → IsOrder (desc key)
  desc-IsOrder key = record { asym = λ x y e. ground arith; cotrans = λ x y z e f. ground arith }

  pub then_by-IsOrder :
      (first second : A → A → Bool)
      → IsOrder first
      → IsOrder second
      → IsOrder (then_by first second)
  then_by-IsOrder first second f s = record {
    asym = λ x y e. ground (arith, f.asym x y, f.asym y x, s.asym x y);
    cotrans = λ x y z h k. ground (
      arith,
      f.cotrans x y z,
      f.cotrans z y x,
      f.cotrans z x y,
      f.cotrans y x z,
      f.cotrans y z x,
      f.cotrans x z y,
      s.cotrans x y z,
      f.asym x y,
      f.asym y x,
      f.asym y z,
      f.asym z y,
      f.asym x z,
      f.asym z x,
    );
  }

  -- An order on a key orders the rows.
  pub key-IsOrder :
      {K : Type 0} (key : A → K) (before : K → K → Bool)
      → IsOrder before
      → IsOrder (λ x y. before (key x) (key y))
  key-IsOrder key before o = record {
    asym = λ x y. o.asym (key x) (key y);
    cotrans = λ x y z. o.cotrans (key x) (key y) (key z);
  }

module _ {A : Type 0} (before : A → A → Bool) (o : IsOrder before) where
  pub before_trans : (x y z : A) → before x y ≡ true → before y z ≡ true → before x z ≡ true
  before_trans x y z e f = ground (arith, o.asym y z, o.cotrans x z y)

  -- An element that comes before another comes before what ties with it.
  pub before_tie : (x y z : A) → before x y ≡ true → before z y ≡ false → before x z ≡ true
  before_tie x y z e f = ground (arith, o.cotrans x z y)
