-- ===== src/Prelude/Perms.antt =====
-- What rearranging a list keeps: its elements, and what holds of all of them or of all pairs.
use mathlib.Core.Path.{◌≡◌, refl, sym, ◌∙◌, subst}
use mathlib.Core.Bool.{Bool}
use mathlib.Core.List.{List, [], ◌∷◌, Memᴰ, Permᴰ}
use native.Mathlib.Omega.{arith}
use be.Prelude.Lists.{All, keep, length}
use be.Prelude.Order.{Pairs}

module _ {A : Type 0} where
  pub perm_refl : (xs : List A) → Permᴰ xs xs
  perm_refl [] = Permᴰ.nil
  perm_refl (x ∷ xs) = Permᴰ.cons refl (perm_refl xs)

  pub perm_sym : {xs ys : List A} → Permᴰ xs ys → Permᴰ ys xs
  perm_sym Permᴰ.nil = Permᴰ.nil
  perm_sym (Permᴰ.cons e d) = Permᴰ.cons (sym e) (perm_sym d)
  perm_sym (Permᴰ.swap e f) = Permᴰ.swap (sym f) (sym e)
  perm_sym (Permᴰ.trans c d) = Permᴰ.trans (perm_sym d) (perm_sym c)

  pub Memᴰ-perm : {x : A} {xs ys : List A} → Permᴰ xs ys → Memᴰ x xs → Memᴰ x ys
  Memᴰ-perm Permᴰ.nil m = m
  Memᴰ-perm (Permᴰ.cons e d) (Memᴰ.head f) = Memᴰ.head (f ∙ e)
  Memᴰ-perm (Permᴰ.cons e d) (Memᴰ.tail m) = Memᴰ.tail (Memᴰ-perm d m)
  Memᴰ-perm (Permᴰ.swap e f) (Memᴰ.head g) = Memᴰ.tail (Memᴰ.head (g ∙ e))
  Memᴰ-perm (Permᴰ.swap e f) (Memᴰ.tail (Memᴰ.head g)) = Memᴰ.head (g ∙ f)
  Memᴰ-perm (Permᴰ.swap e f) (Memᴰ.tail (Memᴰ.tail m)) = Memᴰ.tail (Memᴰ.tail m)
  Memᴰ-perm (Permᴰ.trans c d) m = Memᴰ-perm d (Memᴰ-perm c m)

  pub length-perm : {xs ys : List A} → Permᴰ xs ys → length xs ≡ length ys
  length-perm Permᴰ.nil = refl
  length-perm (Permᴰ.cons e d) = ground (arith, length-perm d)
  length-perm (Permᴰ.swap e f) = refl
  length-perm (Permᴰ.trans c d) = length-perm c ∙ length-perm d

  pub All-perm : (P : A → Type 0) {xs ys : List A} → Permᴰ xs ys → All P xs → All P ys
  All-perm P Permᴰ.nil h = h
  All-perm P (Permᴰ.cons e d) (h, hs) = (subst P e h, All-perm P d hs)
  All-perm P (Permᴰ.swap e f) (h, (k, hs)) = (subst P f k, (subst P e h, hs))
  All-perm P (Permᴰ.trans c d) h = All-perm P d (All-perm P c h)

  pub Pairs-perm :
      (R : A → A → Type 0)
      → ((x y : A) → R x y → R y x)
      → {xs ys : List A} → Permᴰ xs ys
      → Pairs R xs
      → Pairs R ys
  Pairs-perm R s Permᴰ.nil h = h
  Pairs-perm R s (Permᴰ.cons {b = b} {l₁ = k} e d) (h, hs) =
      (All-perm (R b) d (subst (λ z. All (R z) k) e h), Pairs-perm R s d hs)
  Pairs-perm R s (Permᴰ.swap {a = a} {b = b} {a' = a'} {b' = b'} {l = l} e f) ((h, hs), (k, ks)) = (
    (subst (λ z. R z b') f (subst (λ z. R b z) e (s a b h)), subst (λ z. All (R z) l) f k),
    (subst (λ z. All (R z) l) e hs, ks),
  )
  Pairs-perm R s (Permᴰ.trans c d) h = Pairs-perm R s d (Pairs-perm R s c h)

  pub All-keep : (P : A → Type 0) (q : A → Bool) (xs : List A) → All P xs → All P (keep q xs)
  All-keep P q [] h = h
  All-keep P q (x ∷ xs) (h, hs) = ground (arith, All-keep P q xs hs)

  pub Pairs-keep :
      (R : A → A → Type 0) (q : A → Bool) (xs : List A) → Pairs R xs → Pairs R (keep q xs)
  Pairs-keep R q [] h = h
  Pairs-keep R q (x ∷ xs) (h, hs) = ground (arith, All-keep (R x) q xs h, Pairs-keep R q xs hs)
