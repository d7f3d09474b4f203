-- ===== src/Prelude/Strict.antt =====
-- Lists in strict order: they are determined by their elements, and a page of one leaves the
-- elements behind its last.
use mathlib.Core.Path.{◌≡◌, refl, sym, ◌∙◌, ap, subst}
use mathlib.Core.Bool.{Bool, true, false, ◌||◌}
use mathlib.Core.Option.{none, some}
use mathlib.Core.List.{List, [], ◌∷◌, ◌++◌, Memᴰ}
use mathlib.Core.Logic.{◌⊎◌, inl, inr}
use native.Mathlib.Omega.{arith}
use Prim.Native.Nat.{ℕ, zero, suc, ◌≤◌}
use be.Prelude.Tests.{Bool-cases, if◌then◌else◌}
use be.Prelude.Lists.{All, All-Memᴰ, keep, length, take, drop, last_of_page}
use be.Prelude.Order.{Pairs, IsOrder, IsSorted}

module _ {A : Type 0} where
  pub Memᴰ-cases : {x y : A} {xs : List A} → Memᴰ x (y ∷ xs) → (x ≡ y) ⊎ Memᴰ x xs
  Memᴰ-cases (Memᴰ.head e) = inl e
  Memᴰ-cases (Memᴰ.tail m) = inr m

  pub Memᴰ-keep :
      (q : A → Bool) (xs : List A) (x : A) → Memᴰ x (keep q xs) → Memᴰ x xs × (q x ≡ true)
  Memᴰ-keep q [] x m = elim m [ ]
  Memᴰ-keep q (y ∷ xs) x m =
      let kept = λ (b : Bool). if b then y ∷ keep q xs else keep q xs in
      elim (Bool-cases (q y)) [
        | inl e ↦ elim (Memᴰ-cases (subst (λ b. Memᴰ x (kept b)) e m)) [
          | inl same ↦ (Memᴰ.head same, ap q same ∙ e)
          | inr n ↦ let (k, h) = Memᴰ-keep q xs x n in (Memᴰ.tail k, h)
        ]
        | inr e ↦
            let (n, h) = Memᴰ-keep q xs x (subst (λ b. Memᴰ x (kept b)) e m) in (Memᴰ.tail n, h)
      ]

  pub keep-Memᴰ : (q : A → Bool) (xs : List A) (x : A) → Memᴰ x xs → q x ≡ true → Memᴰ x (keep q xs)
  keep-Memᴰ q [] x m e = elim m [ ]
  keep-Memᴰ q (y ∷ xs) x (Memᴰ.head same) e =
      let fits : q y ≡ true = sym (ap q same) ∙ e in rw fits (Memᴰ.head same)
  keep-Memᴰ q (y ∷ xs) x (Memᴰ.tail m) e = elim (Bool-cases (q y)) [
    | inl fits ↦ rw fits (Memᴰ.tail (keep-Memᴰ q xs x m e))
    | inr unfit ↦ rw unfit (keep-Memᴰ q xs x m e)
  ]

  pub length-keep : (q : A → Bool) (xs : List A) → length (keep q xs) ≤ length xs
  length-keep q [] = omega arith
  length-keep q (x ∷ xs) = ground (arith, length-keep q xs)

  pub take-append-drop : (n : ℕ) (xs : List A) → take n xs ++ drop n xs ≡ xs
  take-append-drop zero xs = refl
  take-append-drop (suc n) [] = refl
  take-append-drop (suc n) (x ∷ xs) = ap (λ ys. x ∷ ys) (take-append-drop n xs)

  pub length-take_le : (n : ℕ) (xs : List A) → length (take n xs) ≤ n
  length-take_le zero xs = omega arith
  length-take_le (suc n) [] = omega arith
  length-take_le (suc n) (x ∷ xs) = ground (arith, length-take_le n xs)

  pub Pairs-drop : (R : A → A → Type 0) (n : ℕ) (xs : List A) → Pairs R xs → Pairs R (drop n xs)
  Pairs-drop R zero xs h = h
  Pairs-drop R (suc n) [] h = h
  Pairs-drop R (suc n) (x ∷ xs) (h, hs) = Pairs-drop R n xs hs

  -- A page that is not full is the whole list.
  pub take-all :
      (n : ℕ) (xs : List A) → last_of_page (take (suc n) xs) (suc n) ≡ none → take (suc n) xs ≡ xs
  take-all n [] e = refl
  take-all zero (x ∷ xs) e = cc
  take-all (suc n) (x ∷ xs) e = ap (λ ys. x ∷ ys) (take-all n xs e)

  pub length-drop_page :
      (n : ℕ) (xs : List A) (r : A)
      → last_of_page (take (suc n) xs) (suc n) ≡ some r
      → suc (length (drop (suc n) xs)) ≤ length xs
  length-drop_page n [] r e = cc
  length-drop_page zero (x ∷ xs) r e = omega arith
  length-drop_page (suc n) (x ∷ xs) r e = ground (arith, length-drop_page n xs r e)

module _ {A : Type 0} (before : A → A → Bool) where
  abbrev pub IsStrict : List A → Type 0
  IsStrict = Pairs (λ x y. before x y ≡ true)

  -- No two elements tie.
  abbrev pub IsApart : List A → Type 0
  IsApart = Pairs (λ x y. (before x y || before y x) ≡ true)

  All-both :
      (x : A) (xs : List A)
      → All (λ y. before y x ≡ false) xs
      → All (λ y. (before x y || before y x) ≡ true) xs
      → All (λ y. before x y ≡ true) xs
  All-both x [] h k = tt
  All-both x (y ∷ xs) (h, hs) (k, ks) = (ground arith, All-both x xs hs ks)

  pub IsSorted-IsStrict : (xs : List A) → IsSorted before xs → IsApart xs → IsStrict xs
  IsSorted-IsStrict [] h k = tt
  IsSorted-IsStrict (x ∷ xs) (h, hs) (k, ks) = (All-both x xs h k, IsSorted-IsStrict xs hs ks)

  module _ (o : IsOrder before) where
    irrefl : (x : A) → before x x ≡ true → ⊥
    irrefl x e = let f = o.asym x x e in cc

    pub IsStrict-unique :
        (xs ys : List A)
        → IsStrict xs
        → IsStrict ys
        → ((x : A) → Memᴰ x xs → Memᴰ x ys)
        → ((x : A) → Memᴰ x ys → Memᴰ x xs)
        → xs ≡ ys
    IsStrict-unique [] [] h k to from = refl
    IsStrict-unique [] (y ∷ ys) h k to from = elim (from y (Memᴰ.head refl)) [ ]
    IsStrict-unique (x ∷ xs) [] h k to from = elim (to x (Memᴰ.head refl)) [ ]
    IsStrict-unique (x ∷ xs) (y ∷ ys) (h, hs) (k, ks) to from =
        let same = heads (to x (Memᴰ.head refl)) (from y (Memᴰ.head refl)) in
        rw same (
          ap (λ zs. y ∷ zs)
            (IsStrict-unique xs ys hs ks (λ z m. tail_to same z m (to z (Memᴰ.tail m)))
              (λ z m. tail_from same z m (from z (Memᴰ.tail m)))))
      where
        heads : Memᴰ x (y ∷ ys) → Memᴰ y (x ∷ xs) → x ≡ y
        heads (Memᴰ.head e) n = e
        heads (Memᴰ.tail m) (Memᴰ.head e) = sym e
        heads (Memᴰ.tail m) (Memᴰ.tail n) =
            let a = All-Memᴰ (λ z. before y z ≡ true) ys k m in
            let b = All-Memᴰ (λ z. before x z ≡ true) xs h n in let c = o.asym x y b in cc

        tail_to : x ≡ y → (z : A) → Memᴰ z xs → Memᴰ z (y ∷ ys) → Memᴰ z ys
        tail_to same z m (Memᴰ.tail n) = n
        tail_to same z m (Memᴰ.head e) =
            let a = All-Memᴰ (λ z. before x z ≡ true) xs h m in
            absurd (irrefl x (ap (before x) (same ∙ sym e) ∙ a))

        tail_from : x ≡ y → (z : A) → Memᴰ z ys → Memᴰ z (x ∷ xs) → Memᴰ z xs
        tail_from same z m (Memᴰ.tail n) = n
        tail_from same z m (Memᴰ.head e) =
            let a = All-Memᴰ (λ z. before y z ≡ true) ys k m in
            absurd (irrefl y (ap (before y) (sym same ∙ sym e) ∙ a))

    pub last_Memᴰ :
        (n : ℕ) (xs : List A) (r : A) → last_of_page (take (suc n) xs) (suc n) ≡ some r → Memᴰ r xs
    last_Memᴰ n [] r e = cc
    last_Memᴰ zero (x ∷ xs) r e = Memᴰ.head (cc)
    last_Memᴰ (suc n) (x ∷ xs) r e = Memᴰ.tail (last_Memᴰ n xs r e)

    -- What stands behind a page comes after its last element, and nothing else does.
    pub drop-after :
        (n : ℕ) (xs : List A) (r y : A)
        → IsStrict xs
        → last_of_page (take (suc n) xs) (suc n) ≡ some r
        → Memᴰ y (drop (suc n) xs)
        → Memᴰ y xs × (before r y ≡ true)
    drop-after n [] r y h e m = cc
    drop-after zero (x ∷ xs) r y (h, hs) e m =
        (Memᴰ.tail m, let a = All-Memᴰ (λ z. before x z ≡ true) xs h m in ground arith)
    drop-after (suc n) (x ∷ xs) r y (h, hs) e m =
        let (k, b) = drop-after n xs r y hs e m in (Memᴰ.tail k, b)

    pub after-drop :
        (n : ℕ) (xs : List A) (r y : A)
        → IsStrict xs
        → last_of_page (take (suc n) xs) (suc n) ≡ some r
        → Memᴰ y xs
        → before r y ≡ true
        → Memᴰ y (drop (suc n) xs)
    after-drop n [] r y h e m b = cc
    after-drop zero (x ∷ xs) r y h e (Memᴰ.tail m) b = m
    after-drop zero (x ∷ xs) r y h e (Memᴰ.head same) b =
        let a : before y y ≡ true = ground arith in absurd (irrefl y a)
    after-drop (suc n) (x ∷ xs) r y (h, hs) e (Memᴰ.tail m) b = after-drop n xs r y hs e m b
    after-drop (suc n) (x ∷ xs) r y (h, hs) e (Memᴰ.head same) b =
        let a = All-Memᴰ (λ z. before x z ≡ true) xs h (last_Memᴰ n xs r e) in
        let c = o.asym x r a in let d : before r x ≡ true = ap (before r) (sym same) ∙ b in cc
