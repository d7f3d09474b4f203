-- ===== src/Store/Lookups.antt =====
-- What a lookup tells of a table.
use be.Prelude.{
  Bool, true, false, not, ◌&&◌, some, List, [], ◌∷◌, ◌≡◌, refl, arith, All, some_of, is_some,
  Option-cases, inl, inr, keep, how_many, ◌+◌, ◌≤◌, sym, ap,
}
use mathlib.Core.List.{Memᴰ}
use be.Store.Outside.{Platform}

module _ {A : Type 0} (q : A → Bool) where
  pub some_of-none : (t : List A) → All (λ x. q x ≡ false) t → some_of q t ≡ false
  some_of-none [] h = refl
  some_of-none (x ∷ t) h = ground (arith, some_of-none t h.1)

  pub some_of-Memᴰ : (t : List A) (x : A) → Memᴰ x t → q x ≡ true → some_of q t ≡ true
  some_of-Memᴰ [] x m e = elim m [ ]
  some_of-Memᴰ (y ∷ t) x (Memᴰ.head same) e = ground arith
  some_of-Memᴰ (y ∷ t) x (Memᴰ.tail m) e = ground (arith, some_of-Memᴰ t x m e)

  -- No row fits any more once those that fit are removed.
  pub some_of-keep : (t : List A) → some_of q (keep (λ x. not (q x)) t) ≡ false
  some_of-keep [] = refl
  some_of-keep (x ∷ t) = ground (arith, some_of-keep t)

  pub some_of-find_first : ⦃p : Platform⦄ (t : List A) → is_some (p.find_first q t) ≡ some_of q t
  some_of-find_first ⦃p⦄ t = elim (Option-cases (p.find_first q t)) [
    | inl e ↦ rw e (sym (some_of-none t (p.find_first_none q t e)))
    | inr (x, e) ↦ let (m, h) = p.find_first_some q t x e in rw e (sym (some_of-Memᴰ t x m h))
  ]

  how_many-zero : (t : List A) (x : A) → Memᴰ x t → q x ≡ true → 1 ≤ how_many q t
  how_many-zero [] x m e = elim m [ ]
  how_many-zero (y ∷ t) x (Memᴰ.head same) e = ground arith
  how_many-zero (y ∷ t) x (Memᴰ.tail m) e = ground (arith, how_many-zero t x m e)

  pub Memᴰ-unique :
      (t : List A) (x y : A)
      → how_many q t ≤ 1
      → Memᴰ x t
      → q x ≡ true
      → Memᴰ y t
      → q y ≡ true
      → x ≡ y
  Memᴰ-unique [] x y h m e n e' = elim m [ ]
  Memᴰ-unique (z ∷ t) x y h (Memᴰ.head same) e (Memᴰ.head same') e' = cc
  Memᴰ-unique (z ∷ t) x y h (Memᴰ.head same) e (Memᴰ.tail n) e' =
      ground (arith, how_many-zero t y n e')
  Memᴰ-unique (z ∷ t) x y h (Memᴰ.tail m) e (Memᴰ.head same) e' =
      ground (arith, how_many-zero t x m e)
  Memᴰ-unique (z ∷ t) x y h (Memᴰ.tail m) e (Memᴰ.tail n) e' =
      Memᴰ-unique t x y (ground arith) m e n e'

  -- The only row that fits is the one found.
  pub find_first_unique :
      ⦃p : Platform⦄ (t : List A) (x : A)
      → how_many q t ≤ 1
      → Memᴰ x t
      → q x ≡ true
      → p.find_first q t ≡ some x
  find_first_unique ⦃p⦄ t x h m e = elim (Option-cases (p.find_first q t)) [
    | inl missing ↦
        ground (arith, some_of-none t (p.find_first_none q t missing), some_of-Memᴰ t x m e)
    | inr (y, found) ↦
        let (n, e') = p.find_first_some q t y found in
        rw found (ap some (Memᴰ-unique t y x h n e' m e))
  ]

  -- What `createMany` adds are the given rows.
  pub how_many-create_many :
      ⦃p : Platform⦄ (clash : A → A → Bool) (rows t t' : List A)
      → p.create_many clash rows t ≡ some t'
      → how_many q t' ≡ how_many q t + how_many q rows
  how_many-create_many ⦃p⦄ clash [] t t' e = ground (arith, p.create_many_nil clash t)
  how_many-create_many ⦃p⦄ clash (r ∷ rows) t t' e =
      ground (
        arith,
        p.create_many_cons clash r rows t,
        how_many-create_many ⦃p = p⦄ clash rows (r ∷ t) t',
      )

  some_of-none_fits :
      (r : A → Bool) (t : List A) → how_many q t ≡ 0 → some_of (λ y. q y && r y) t ≡ false
  some_of-none_fits r [] h = refl
  some_of-none_fits r (y ∷ t) h = ground (arith, some_of-none_fits r t)

  -- A further test on the only row that fits.
  pub some_of_unique :
      (r : A → Bool) (t : List A) (x : A)
      → how_many q t ≤ 1
      → Memᴰ x t
      → q x ≡ true
      → some_of (λ y. q y && r y) t ≡ r x
  some_of_unique r [] x h m e = elim m [ ]
  some_of_unique r (y ∷ t) x h (Memᴰ.head same) e =
      let fits : q y ≡ true = cc in ground (arith, some_of-none_fits r t)
  some_of_unique r (y ∷ t) x h (Memᴰ.tail m) e =
      ground (arith, how_many-zero t x m e, some_of_unique r t x (ground arith) m e)

  pub some_of-unfit :
      (r : A → Bool) (t : List A) → some_of q t ≡ false → some_of (λ y. q y && r y) t ≡ false
  some_of-unfit r [] h = refl
  some_of-unfit r (y ∷ t) h = ground (arith, some_of-unfit r t)
