-- ===== src/Prelude/Members.antt =====
-- Where the elements of a page, a join or a mapped list come from.
use mathlib.Core.Path.{◌≡◌, refl, sym, ◌∙◌, ap, subst}
use mathlib.Core.Bool.{Bool, true, false}
use mathlib.Core.Option.{Option, none, some}
use mathlib.Core.List.{List, [], ◌∷◌, ◌++◌, map, Memᴰ}
use mathlib.Core.Logic.{◌⊎◌, inl, inr}
use native.Mathlib.Omega.{arith}
use Prim.Native.Nat.{ℕ, zero, suc}
use be.Prelude.Tests.{Bool-cases, ◌==◌, if◌then◌else◌}
use be.Prelude.Lists.{All, All-Memᴰ, length, keep, some_of, take, flat_map}
use be.Prelude.Strict.{Memᴰ-keep, keep-Memᴰ}
use be.Prelude.Joins.{join, left_join, or_null, one_of, group_by}
use be.Prelude.Order.{Pairs}

module _ {A : Type 0} where
  pub Memᴰ-take : (n : ℕ) (xs : List A) (x : A) → Memᴰ x (take n xs) → Memᴰ x xs
  Memᴰ-take zero xs x m = elim m [ ]
  Memᴰ-take (suc n) [] x m = m
  Memᴰ-take (suc n) (y ∷ xs) x (Memᴰ.head e) = Memᴰ.head e
  Memᴰ-take (suc n) (y ∷ xs) x (Memᴰ.tail m) = Memᴰ.tail (Memᴰ-take n xs x m)

  pub Memᴰ-append : (xs ys : List A) (x : A) → Memᴰ x (xs ++ ys) → Memᴰ x xs ⊎ Memᴰ x ys
  Memᴰ-append [] ys x m = inr m
  Memᴰ-append (z ∷ xs) ys x (Memᴰ.head e) = inl (Memᴰ.head e)
  Memᴰ-append (z ∷ xs) ys x (Memᴰ.tail m) = elim (Memᴰ-append xs ys x m) [
    | inl n ↦ inl (Memᴰ.tail n)
    | inr n ↦ inr n
  ]

  pub All-of_Memᴰ : {P : A → Type 0} (xs : List A) → ((x : A) → Memᴰ x xs → P x) → All P xs
  All-of_Memᴰ [] f = tt
  All-of_Memᴰ (x ∷ xs) f = (f x (Memᴰ.head refl), All-of_Memᴰ xs (λ y m. f y (Memᴰ.tail m)))

  pub Memᴰ-group_by :
      (same : A → A → Bool) (xs : List A) (x : A) → Memᴰ x (group_by same xs) → Memᴰ x xs
  Memᴰ-group_by same [] x m = m
  Memᴰ-group_by same (y ∷ xs) x (Memᴰ.head e) = Memᴰ.head e
  Memᴰ-group_by same (y ∷ xs) x (Memᴰ.tail m) =
      let (n, e) = Memᴰ-keep _ (group_by same xs) x m in Memᴰ.tail (Memᴰ-group_by same xs x n)

pub All-append :
    {A : Type 0} (P : A → Type 0) (xs ys : List A) → All P xs → All P ys → All P (xs ++ ys)
All-append P [] ys h k = k
All-append P (x ∷ xs) ys (h, hs) k = (h, All-append P xs ys hs k)

module _ {A B : Type 0} where
  pub Memᴰ-map :
      (f : A → B) (xs : List A) (y : B) → Memᴰ y (map f xs) → (x : A) × Memᴰ x xs × (y ≡ f x)
  Memᴰ-map f [] y m = elim m [ ]
  Memᴰ-map f (x ∷ xs) y (Memᴰ.head e) = (x, Memᴰ.head refl, e)
  Memᴰ-map f (x ∷ xs) y (Memᴰ.tail m) = let (z, n, e) = Memᴰ-map f xs y m in (z, Memᴰ.tail n, e)

  pub All-map :
      (P : B → Type 0) (f : A → B) (xs : List A) → All (λ x. P (f x)) xs → All P (map f xs)
  All-map P f [] h = tt
  All-map P f (x ∷ xs) (h, hs) = (h, All-map P f xs hs)

  pub All-flat_map :
      (P : B → Type 0) (f : A → List B) (xs : List A)
      → ((x : A) → All P (f x))
      → All P (flat_map f xs)
  All-flat_map P f [] h = tt
  All-flat_map P f (x ∷ xs) h = All-append P (f x) (flat_map f xs) (h x) (All-flat_map P f xs h)

  pub length-map : (f : A → B) (xs : List A) → length (map f xs) ≡ length xs
  length-map f [] = refl
  length-map f (x ∷ xs) = ap suc (length-map f xs)

  pub Memᴰ-flat_map :
      (f : A → List B) (xs : List A) (y : B)
      → Memᴰ y (flat_map f xs)
      → (x : A) × Memᴰ x xs × Memᴰ y (f x)
  Memᴰ-flat_map f [] y m = elim m [ ]
  Memᴰ-flat_map f (x ∷ xs) y m = elim (Memᴰ-append (f x) (flat_map f xs) y m) [
    | inl n ↦ (x, Memᴰ.head refl, n)
    | inr n ↦ let (z, k, h) = Memᴰ-flat_map f xs y n in (z, Memᴰ.tail k, h)
  ]

module _ {A B : Type 0} where
  -- A row of an inner join.
  pub Memᴰ-join :
      (on : A → B → Bool) (xs : List A) (ys : List B) (row : A × B)
      → Memᴰ row (join on xs ys)
      → Memᴰ row.0 xs × Memᴰ row.1 ys × (on row.0 row.1 ≡ true)
  Memᴰ-join on xs ys row m =
      let (x, k, n) = Memᴰ-flat_map (λ x. map (λ y. (x, y)) (keep (on x) ys)) xs row m in
      let (y, l, e) = Memᴰ-map (λ y. (x, y)) (keep (on x) ys) row n in
      let (h, fits) = Memᴰ-keep (on x) ys y l in
      let left : row.0 ≡ x = ap (λ r. r.0) e in
      let right : row.1 ≡ y = ap (λ r. r.1) e in
      (
        subst (λ z. Memᴰ z xs) (sym left) k,
        subst (λ z. Memᴰ z ys) (sym right) h,
        ap (λ r. on r.0 r.1) e ∙ fits,
      )

pub Memᴰ-or_null :
    {B : Type 0} (ys : List B) (o : Option B)
    → Memᴰ o (or_null ys)
    → (o ≡ none) × (ys ≡ []) ⊎ ((y : B) × (o ≡ some y) × Memᴰ y ys)
Memᴰ-or_null [] o (Memᴰ.head e) = inl (e, refl)
Memᴰ-or_null [] o (Memᴰ.tail m) = elim m [ ]
Memᴰ-or_null (y ∷ ys) o m = let (z, n, e) = Memᴰ-map (λ z. some z) (y ∷ ys) o m in inr (z, e, n)

module _ {A B : Type 0} where
  -- A row of a left join.
  pub Memᴰ-left_join :
      (on : A → B → Bool) (xs : List A) (ys : List B) (x : A) (o : Option B)
      → Memᴰ {A = A × Option B} (x, o) (left_join on xs ys)
      → Memᴰ x xs
        × ((o ≡ none) × (keep (on x) ys ≡ [])
            ⊎ ((y : B) × (o ≡ some y) × Memᴰ y ys × (on x y ≡ true)))
  Memᴰ-left_join on xs ys x o m =
      let (z, k, n) =
        Memᴰ-flat_map (λ z. map (λ y. (z, y)) (or_null (keep (on z) ys))) xs (x, o) m in
      let (u, l, e) = Memᴰ-map (λ y. (z, y)) (or_null (keep (on z) ys)) (x, o) n in
      let same : x ≡ z = ap (λ row. row.0) e in
      let same' : o ≡ u = ap (λ row. row.1) e in
      (
        subst (λ t. Memᴰ t xs) (sym same) k,
        elim (Memᴰ-or_null (keep (on z) ys) u l) [
          | inl (f, g) ↦ inl (same' ∙ f, ap (λ t. keep (on t) ys) same ∙ g)
          | inr (y, f, h) ↦
              let (i, fits) = Memᴰ-keep (on z) ys y h in
              inr (y, same' ∙ f, i, ap (λ t. on t y) same ∙ fits)
        ],
      )

-- Nothing is kept where nothing fits.
pub some_of-keep_nil :
    {A : Type 0} (q : A → Bool) (xs : List A) → keep q xs ≡ [] → some_of q xs ≡ false
some_of-keep_nil q [] e = refl
some_of-keep_nil q (x ∷ xs) e = elim (Bool-cases (q x)) [
  | inl fits ↦
      let f : x ∷ keep q xs ≡ [] =
        ap (λ b. if b then x ∷ keep q xs else keep q xs) (sym fits) ∙ e in
      cc
  | inr unfit ↦
      let f : keep q xs ≡ [] = ap (λ b. if b then x ∷ keep q xs else keep q xs) (sym unfit) ∙ e in
      ground (arith, some_of-keep_nil q xs f)
]

pub one_of-map :
    {A : Type 0} (f : A → ℕ) (xs : List A) (i : ℕ)
    → one_of (map f xs) i ≡ true
    → (x : A) × Memᴰ x xs × (f x ≡ i)
one_of-map f [] i e = cc
one_of-map f (x ∷ xs) i e = elim (Bool-cases (f x == i)) [
  | inl same ↦ (x, Memᴰ.head refl, ground arith)
  | inr other ↦ let (y, m, h) = one_of-map f xs i (ground arith) in (y, Memᴰ.tail m, h)
]

module _ {A B : Type 0} where
  pub map-Memᴰ : (f : A → B) (xs : List A) (x : A) → Memᴰ x xs → Memᴰ (f x) (map f xs)
  map-Memᴰ f [] x m = elim m [ ]
  map-Memᴰ f (y ∷ xs) x (Memᴰ.head e) = Memᴰ.head (ap f e)
  map-Memᴰ f (y ∷ xs) x (Memᴰ.tail m) = Memᴰ.tail (map-Memᴰ f xs x m)

append-Memᴰ : {A : Type 0} (xs ys : List A) (x : A) → Memᴰ x xs ⊎ Memᴰ x ys → Memᴰ x (xs ++ ys)
append-Memᴰ [] ys x (inl m) = elim m [ ]
append-Memᴰ [] ys x (inr m) = m
append-Memᴰ (z ∷ xs) ys x (inl (Memᴰ.head e)) = Memᴰ.head e
append-Memᴰ (z ∷ xs) ys x (inl (Memᴰ.tail m)) = Memᴰ.tail (append-Memᴰ xs ys x (inl m))
append-Memᴰ (z ∷ xs) ys x (inr m) = Memᴰ.tail (append-Memᴰ xs ys x (inr m))

-- Two rows that fit are joined.
pub join-Memᴰ :
    {A B : Type 0} (on : A → B → Bool) (xs : List A) (ys : List B) (x : A) (y : B)
    → Memᴰ x xs
    → Memᴰ y ys
    → on x y ≡ true
    → Memᴰ (x, y) (join on xs ys)
join-Memᴰ on [] ys x y n m e = elim n [ ]
join-Memᴰ {A = A} {B = B} on (z ∷ xs) ys x y (Memᴰ.head same) m e =
    append-Memᴰ (map (λ v. (z, v)) (keep (on z) ys)) (join on xs ys) (x, y)
      (inl (
        subst (λ t. Memᴰ {A = A × B} (t, y) (map (λ v. (z, v)) (keep (on z) ys))) (sym same)
          (map-Memᴰ (λ v. (z, v)) (keep (on z) ys) y
            (keep-Memᴰ (on z) ys y m (ap (λ t. on t y) (sym same) ∙ e)))))
join-Memᴰ on (z ∷ xs) ys x y (Memᴰ.tail n) m e =
    append-Memᴰ (map (λ v. (z, v)) (keep (on z) ys)) (join on xs ys) (x, y)
      (inr (join-Memᴰ on xs ys x y n m e))

-- Of elements with different keys, two with one key are one.
pub Pairs-unique :
    {A : Type 0} (key : A → ℕ) (xs : List A) (x y : A)
    → Pairs (λ a b. (key a == key b) ≡ false) xs
    → Memᴰ x xs
    → Memᴰ y xs
    → key x ≡ key y
    → x ≡ y
Pairs-unique key [] x y h m n e = elim m [ ]
Pairs-unique key (z ∷ xs) x y (h, hs) (Memᴰ.head f) (Memᴰ.head g) e = f ∙ sym g
Pairs-unique key (z ∷ xs) x y (h, hs) (Memᴰ.head f) (Memᴰ.tail n) e =
    let other = All-Memᴰ (λ b. (key z == key b) ≡ false) xs h n in
    let same : key z ≡ key y = sym (ap key f) ∙ e in absurd (ground arith)
Pairs-unique key (z ∷ xs) x y (h, hs) (Memᴰ.tail m) (Memᴰ.head g) e =
    let other = All-Memᴰ (λ b. (key z == key b) ≡ false) xs h m in
    let same : key z ≡ key x = sym (ap key g) ∙ sym e in absurd (ground arith)
Pairs-unique key (z ∷ xs) x y (h, hs) (Memᴰ.tail m) (Memᴰ.tail n) e =
    Pairs-unique key xs x y hs m n e
