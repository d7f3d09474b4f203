-- ===== src/Prelude/Objects.antt =====
-- The objects that `collect_by` makes: what holds of each value, and that each key is there once.
use mathlib.Core.Path.{◌≡◌, sym, subst}
use mathlib.Core.Bool.{true, false, not}
use mathlib.Core.Option.{some}
use mathlib.Core.List.{List, [], ◌∷◌, map}
use mathlib.Core.Logic.{inl, inr}
use native.Mathlib.Omega.{arith}
use Prim.Native.Nat.{ℕ, suc, ◌≤◌}
use be.Prelude.Tests.{Bool-cases, Option-cases, ◌==◌}
use be.Prelude.Lists.{All, length, keep}
use be.Prelude.Order.{Pairs}
use be.Prelude.Strict.{length-keep}
use be.Prelude.Joins.{get, put, collect_by, one_of}

-- No number twice.
abbrev pub IsDistinct : List ℕ → Type 0
IsDistinct = Pairs (λ x y. (x == y) ≡ false)

All-without :
    (x : ℕ) (xs ys : List ℕ)
    → All (λ y. (x == y) ≡ false) xs
    → All (λ y. one_of ys y ≡ true) xs
    → All (λ y. one_of (keep (λ z. not (z == x)) ys) y ≡ true) xs
All-without x [] ys h k = tt
All-without x (y ∷ xs) ys (h, hs) (k, ks) = (without ys k, All-without x xs ys hs ks)
  where
    without : (zs : List ℕ) → one_of zs y ≡ true → one_of (keep (λ z. not (z == x)) zs) y ≡ true
    without [] e = e
    without (z ∷ zs) e = ground (arith, without zs)

length-without :
    (x : ℕ) (ys : List ℕ)
    → one_of ys x ≡ true
    → suc (length (keep (λ z. not (z == x)) ys)) ≤ length ys
length-without x [] e = cc
length-without x (y ∷ ys) e =
    ground (arith, length-without x ys, length-keep (λ z. not (z == x)) ys)

-- Different numbers of a list are not more than the list has.
pub length-IsDistinct :
    (xs ys : List ℕ) → IsDistinct xs → All (λ x. one_of ys x ≡ true) xs → length xs ≤ length ys
length-IsDistinct [] ys h k = omega arith
length-IsDistinct (x ∷ xs) ys (h, hs) (k, ks) = omega (
  arith,
  length-without x ys k,
  length-IsDistinct xs (keep (λ z. not (z == x)) ys) hs (All-without x xs ys h ks),
)

module _ {V : Type 0} where
  abbrev pub keys : List (ℕ × V) → List ℕ
  keys result = map (λ entry. entry.0) result

  -- What is known of an entry.
  abbrev pub Holds : (ℕ → V → Type 0) → List (ℕ × V) → Type 0
  Holds P result = All (λ entry. P entry.0 entry.1) result

  Holds-get :
      (P : ℕ → V → Type 0) (k : ℕ) (v : V) (result : List (ℕ × V))
      → Holds P result
      → get k result ≡ some v
      → P k v
  Holds-get P k v [] h e = cc
  Holds-get P k v ((j, u) ∷ result) (h, hs) e = elim (Bool-cases (j == k)) [
    | inl same ↦
        let f : j ≡ k = ground arith in
        let g : u ≡ v = ground arith in subst (λ z. P z v) f (subst (P j) g h)
    | inr other ↦ Holds-get P k v result hs (ground arith)
  ]

  Holds-put :
      (P : ℕ → V → Type 0) (k : ℕ) (v : V) (result : List (ℕ × V))
      → Holds P result
      → P k v
      → Holds P (put k v result)
  Holds-put P k v [] h g = (g, tt)
  Holds-put P k v ((j, u) ∷ result) (h, hs) g = elim (Bool-cases (j == k)) [
    | inl same ↦ rw same (subst (λ z. P z v) (sym (ground arith)) g, hs)
    | inr other ↦ rw other (h, Holds-put P k v result hs g)
  ]

  All-keys-put :
      (P : ℕ → Type 0) (k : ℕ) (v : V) (result : List (ℕ × V))
      → All P (keys result)
      → P k
      → All P (keys (put k v result))
  All-keys-put P k v [] h g = (g, tt)
  All-keys-put P k v ((j, u) ∷ result) (h, hs) g = elim (Bool-cases (j == k)) [
    | inl same ↦ rw same (h, hs)
    | inr other ↦ rw other (h, All-keys-put P k v result hs g)
  ]

  IsDistinct-put :
      (k : ℕ) (v : V) (result : List (ℕ × V))
      → IsDistinct (keys result)
      → IsDistinct (keys (put k v result))
  IsDistinct-put k v [] h = (tt, tt)
  IsDistinct-put k v ((j, u) ∷ result) (h, hs) = elim (Bool-cases (j == k)) [
    | inl same ↦ rw same (h, hs)
    | inr other ↦
        rw other
          (All-keys-put (λ y. (j == y) ≡ false) k v result h other, IsDistinct-put k v result hs)
  ]

  module _ {Row : Type 0} (key : Row → ℕ) (start : Row → V) (add : Row → V → V) where
    pub collect_by-IsDistinct :
        (rows : List Row) (result : List (ℕ × V))
        → IsDistinct (keys result)
        → IsDistinct (keys (collect_by key start add rows result))
    collect_by-IsDistinct [] result h = h
    collect_by-IsDistinct (row ∷ rows) result h =
        collect_by-IsDistinct rows _ (IsDistinct-put (key row) _ result h)

    -- What a row's key begins with and what adding a row keeps holds of every value.
    pub collect_by-Holds :
        (P : ℕ → V → Type 0) (rows : List Row) (result : List (ℕ × V))
        → All (λ row. P (key row) (start row)) rows
        → All (λ row. (v : V) → P (key row) v → P (key row) (add row v)) rows
        → Holds P result
        → Holds P (collect_by key start add rows result)
    collect_by-Holds P [] result h k g = g
    collect_by-Holds P (row ∷ rows) result (h, hs) (k, ks) g = collect_by-Holds P rows _ hs ks (
        Holds-put P (key row) _ result g (elim (Option-cases (get (key row) result)) [
          | inl e ↦ rw e (k (start row) h)
          | inr (v, e) ↦ rw e (k v (Holds-get P (key row) v result g e))
        ]))
