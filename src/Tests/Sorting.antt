-- ===== src/Tests/Sorting.antt =====
-- Sorting by insertion, the order of texts by their characters' numbers and times as texts of that
-- many characters: the platform on lists has them for `ORDER BY`, the collation and ISO dates.
use Prim.Native.Nat.{Ordering, compare as compare_ℕ}
use Prim.Native.Char.{Char, code}
use Prim.Native.String.compare
use Prim.Native.String.count
use Prim.Native.String.{String, [] as ε, ◌∷◌ as ◌∷ˢ◌, compare, then as first_of, count}
use mathlib.Core.List.{Permᴰ}
use text.Mathlib.TextEquality.{path_by_compare}
use be.Prelude.{
  ℕ, suc, zero, ◌≡◌, refl, sym, ◌∙◌, ap, arith, Bool, true, false, List, [], ◌∷◌, if◌then◌else◌,
  All, IsOrder, IsSorted, Bool-cases, inl, inr, perm_refl, ltb, ◌==◌, ◌&&◌, ◌||◌,
}

module _ {A : Type 0} (before : A → A → Bool) where
  insert : A → List A → List A
  insert x [] = x ∷ []
  insert x (y ∷ ys) = let rest = insert x ys in if before y x then y ∷ rest else x ∷ y ∷ ys

  unfoldable pub sorted : List A → List A
  unfolding insert
  sorted [] = []
  sorted (x ∷ xs) = insert x (sorted xs)

  insert-Permᴰ : (x : A) (ys : List A) → Permᴰ (insert x ys) (x ∷ ys)
  unfolding insert
  insert-Permᴰ x [] = perm_refl (x ∷ [])
  insert-Permᴰ x (y ∷ ys) = elim (Bool-cases (before y x)) [
    | inl e ↦ rw e (Permᴰ.trans (Permᴰ.cons refl (insert-Permᴰ x ys)) (Permᴰ.swap refl refl))
    | inr e ↦ rw e (perm_refl (x ∷ y ∷ ys))
  ]

  pub sorted-Permᴰ : (xs : List A) → Permᴰ (sorted xs) xs
  unfolding sorted
  sorted-Permᴰ [] = Permᴰ.nil
  sorted-Permᴰ (x ∷ xs) =
      Permᴰ.trans (insert-Permᴰ x (sorted xs)) (Permᴰ.cons refl (sorted-Permᴰ xs))

  module _ (o : IsOrder before) where
    All-insert :
        (y x : A) (ys : List A)
        → before x y ≡ false
        → All (λ z. before z y ≡ false) ys
        → All (λ z. before z y ≡ false) (insert x ys)
    unfolding insert
    All-insert y x [] e h = (e, tt)
    All-insert y x (z ∷ ys) e (h, hs) = ground (arith, All-insert y x ys e hs)

    All-later :
        (x y : A) (ys : List A)
        → before y x ≡ false
        → All (λ z. before z y ≡ false) ys
        → All (λ z. before z x ≡ false) ys
    All-later x y [] e h = tt
    All-later x y (z ∷ ys) e (h, hs) = (o.cotrans z y x h e, All-later x y ys e hs)

    insert-IsSorted : (x : A) (ys : List A) → IsSorted before ys → IsSorted before (insert x ys)
    unfolding insert
    insert-IsSorted x [] h = (tt, tt)
    insert-IsSorted x (y ∷ ys) (h, hs) = elim (Bool-cases (before y x)) [
      | inl e ↦ rw e (All-insert y x ys (o.asym y x e) h, insert-IsSorted x ys hs)
      | inr e ↦ rw e ((e, All-later x y ys e h), (h, hs))
    ]

    pub sorted-IsSorted : (xs : List A) → IsSorted before (sorted xs)
    unfolding sorted
    sorted-IsSorted [] = tt
    sorted-IsSorted (x ∷ xs) = insert-IsSorted x (sorted xs) (sorted-IsSorted xs)

is_lt : Ordering → Bool
is_lt Ordering.lt = true
is_lt _ = false

unfoldable pub text_less : String → String → Bool
unfolding is_lt
text_less s t = is_lt (compare s t)

swapped : Ordering → Ordering
swapped Ordering.lt = Ordering.gt
swapped Ordering.eq = Ordering.eq
swapped Ordering.gt = Ordering.lt

compare_ℕ-swapped : (m n : ℕ) → compare_ℕ n m ≡ swapped (compare_ℕ m n)
unfolding swapped
compare_ℕ-swapped m n = ground arith

first_of-swapped :
    (o p o' p' : Ordering)
    → o' ≡ swapped o
    → p' ≡ swapped p
    → first_of o' p' ≡ swapped (first_of o p)
unfolding swapped
first_of-swapped Ordering.lt p o' p' e f = cc
first_of-swapped Ordering.eq p o' p' e f = cc
first_of-swapped Ordering.gt p o' p' e f = cc

compare-swapped : (s t : String) → compare t s ≡ swapped (compare s t)
unfolding swapped
compare-swapped ε ε = compare.nil-nil ∙ sym (ap swapped compare.nil-nil)
compare-swapped ε (d ∷ˢ t) = compare.cons-nil d t ∙ sym (ap swapped (compare.nil-cons d t))
compare-swapped (c ∷ˢ s) ε = compare.nil-cons c s ∙ sym (ap swapped (compare.cons-nil c s))
compare-swapped (c ∷ˢ s) (d ∷ˢ t) =
    compare.cons-cons d c t s
    ∙ first_of-swapped (compare_ℕ (code c) (code d)) (compare s t) _ _
        (compare_ℕ-swapped (code c) (code d)) (compare-swapped s t)
    ∙ sym (ap swapped (compare.cons-cons c d s t))

is_lt-cons :
    (c d : Char) (s t : String)
    → text_less (c ∷ˢ s) (d ∷ˢ t) ≡ (ltb (code c) (code d) || (code c == code d && text_less s t))
unfolding text_less is_lt
is_lt-cons c d s t = ap is_lt (compare.cons-cons c d s t) ∙ ground arith

text_less-asym : (s t : String) → text_less s t ≡ true → text_less t s ≡ false
unfolding text_less is_lt swapped
text_less-asym s t e = ground (arith, compare-swapped s t)

text_less-none : (s : String) → text_less s ε ≡ false
unfolding text_less is_lt
text_less-none ε = ap is_lt compare.nil-nil
text_less-none (c ∷ˢ s) = ap is_lt (compare.cons-nil c s)

none-text_less : (c : Char) (s : String) → text_less ε (c ∷ˢ s) ≡ true
unfolding text_less is_lt
none-text_less c s = ap is_lt (compare.nil-cons c s)

text_less-cotrans :
    (s t u : String) → text_less s t ≡ false → text_less t u ≡ false → text_less s u ≡ false
text_less-cotrans s t ε e f = text_less-none s
text_less-cotrans s ε (d ∷ˢ u) e f = let g = none-text_less d u in absurd (cc (f, g))
text_less-cotrans ε (c ∷ˢ t) (d ∷ˢ u) e f = let g = none-text_less c t in absurd (cc (e, g))
text_less-cotrans (b ∷ˢ s) (c ∷ˢ t) (d ∷ˢ u) e f =
    ground
      (arith, is_lt-cons b c s t, is_lt-cons c d t u, is_lt-cons b d s u, text_less-cotrans s t u)

pub text_less-IsOrder : IsOrder text_less
text_less-IsOrder = record { asym = text_less-asym; cotrans = text_less-cotrans }

pub text_less-total : (s t : String) → text_less s t ≡ false → text_less t s ≡ false → s ≡ t
unfolding text_less is_lt swapped
text_less-total s t e f = path_by_compare s t (ground (arith, compare-swapped s t))

-- A text of as many characters as the number says.
unfoldable pub tally : ℕ → String
tally zero = ""
tally (suc n) = "x" ∷ˢ tally n

pub count-tally : (n : ℕ) → count (tally n) ≡ n
unfolding tally
count-tally zero = count.nil
count-tally (suc n) = count.cons "x" (tally n) ∙ ap suc (count-tally n)
