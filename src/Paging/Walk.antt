-- ===== src/Paging/Walk.antt =====
-- A client that asks for the page behind each cursor that it gets, and what it sees.
use be.Prelude.{
  ℕ, zero, suc, ◌≤◌, ◌<◌, arith, Bool, true, ◌&&◌, Option, none, some, List, [], ◌∷◌, ◌++◌, map,
  ◌≡◌, refl, sym, ◌∙◌, ap, keep, take, drop, length, last_of_page, map_option, IsOrder, IsStrict,
  IsApart, IsSorted-IsStrict, IsStrict-unique, drop-after, after-drop, Memᴰ-keep, keep-Memᴰ,
  Memᴰ-perm, perm_sym, Pairs-perm, Pairs-keep, length-perm, length-keep, take-all, take-append-drop,
  length-drop_page, Pairs-drop, last_Memᴰ, get_elem?, All, Pairs, Option-cases, inl, inr, or_comm,
}
use mathlib.Core.List.{Memᴰ}
use be.Store.{World, Result, Action, Platform, ok, pure, ◌>>=◌}
use be.Paging.Inputs.{Page}

module _ {A C : Type 0} where
  -- All that is on the pages from a cursor on; `none` where `fuel` pages are not enough.
  unfoldable pub pages : (C → Action (Page A C)) → ℕ → C → Action (Option (List A))
  pages read zero cursor = pure none
  pages read (suc fuel) cursor = do
    page ← read cursor
    elim page.next_cursor [
      | none ↦ pure (some page.items)
      | some next ↦ do
        rest ← pages read fuel next
        pure (map_option (λ items. page.items ++ items) rest)
    ]

  pages-last :
      (read : C → Action (Page A C)) (fuel : ℕ) (c : C) (w : World) (xs : List A) (next : Option C)
      → read c w ≡ (ok (record { items = xs; next_cursor = next }), w)
      → next ≡ none
      → pages read (suc fuel) c w ≡ (ok (some xs), w)
  unfolding pages
  pages-last read fuel c w xs next e f = ground (arith, e, f)

  pages-next :
      (read : C → Action (Page A C)) (fuel : ℕ) (c c' : C) (w : World) (xs ys : List A)
      (next : Option C)
      → read c w ≡ (ok (record { items = xs; next_cursor = next }), w)
      → next ≡ some c'
      → pages read fuel c' w ≡ (ok (some ys), w)
      → pages read (suc fuel) c w ≡ (ok (some (xs ++ ys)), w)
  unfolding pages
  pages-next read fuel c c' w xs ys next e f g = ground (arith, e, f, g)

get_elem?-map :
    {A B : Type 0} (f : A → B) (xs : List A) (n : ℕ)
    → get_elem? (map f xs) n ≡ map_option f (get_elem? xs n)
get_elem?-map f [] n = refl
get_elem?-map f (x ∷ xs) zero = refl
get_elem?-map f (x ∷ xs) (suc n) = get_elem?-map f xs n

map_option-twice :
    {A B C : Type 0} (g : B → C) (f : A → B) (o : Option A)
    → map_option g (map_option f o) ≡ map_option (λ x. g (f x)) o
map_option-twice g f none = refl
map_option-twice g f (some x) = refl

map-append : {A B : Type 0} (f : A → B) (xs ys : List A) → map f (xs ++ ys) ≡ map f xs ++ map f ys
map-append f [] ys = refl
map-append f (x ∷ xs) ys = ap (λ zs. f x ∷ zs) (map-append f xs ys)

module _ ⦃p : Platform⦄ {A : Type 0} (before : A → A → Bool) (t : List A) where
  -- The rows that fit, in order.
  abbrev pub ordered : (A → Bool) → List A
  ordered q = p.order_by before (keep q t)

  ordered-Memᴰ : (q : A → Bool) (x : A) → Memᴰ x (ordered q) → Memᴰ x t × (q x ≡ true)
  ordered-Memᴰ q x m = Memᴰ-keep q t x (Memᴰ-perm (p.order_by_perm before (keep q t)) m)

  Memᴰ-ordered : (q : A → Bool) (x : A) → Memᴰ x t → q x ≡ true → Memᴰ x (ordered q)
  Memᴰ-ordered q x m e =
      Memᴰ-perm (perm_sym (p.order_by_perm before (keep q t))) (keep-Memᴰ q t x m e)

  pub length-ordered : (q : A → Bool) → length (ordered q) ≤ length t
  length-ordered q = omega (arith, length-perm (p.order_by_perm before (keep q t)), length-keep q t)

  module _ (o : IsOrder before) (apart : IsApart before t) where
    pub ordered-IsStrict : (q : A → Bool) → IsStrict before (ordered q)
    ordered-IsStrict q =
        IsSorted-IsStrict before (ordered q) (p.order_by_sorted before (keep q t) o) (
          Pairs-perm _ (λ x y e. or_comm (before y x) (before x y) ∙ e)
            (perm_sym (p.order_by_perm before (keep q t))) (Pairs-keep _ q t apart))

    -- The rows behind a full page are those that fit and come after the page's last row.
    pub ordered-drop :
        (q r : A → Bool) (n : ℕ) (x : A)
        → last_of_page (take (suc n) (ordered q)) (suc n) ≡ some x
        → ((y : A) → r y ≡ (q y && before x y))
        → ordered r ≡ drop (suc n) (ordered q)
    ordered-drop q r n x e same =
        IsStrict-unique before o (ordered r) (drop (suc n) (ordered q)) (ordered-IsStrict r)
          (Pairs-drop _ (suc n) (ordered q) (ordered-IsStrict q))
          (λ y m.
            let (k, h) = ordered-Memᴰ r y m in
            after-drop before o n (ordered q) x y (ordered-IsStrict q) e
              (Memᴰ-ordered q y k (ground (arith, same y))) (ground (arith, same y)))
          (λ y m.
            let (k, b) = drop-after before o n (ordered q) x y (ordered-IsStrict q) e m in
            let (l, h) = ordered-Memᴰ q y k in Memᴰ-ordered r y l (ground (arith, same y)))

    module _ {B C : Type 0} (view : A → B) (cursor : B → C) (fits : A → Bool) (after : C → A → Bool)
        (after_cursor : (x y : A) → after (cursor (view x)) y ≡ before x y)
        (after_trans : (c : C) (x y : A) → after c x ≡ true → before x y ≡ true → after c y ≡ true)
        (n : ℕ) (read : C → Action (Page B C)) (w : World)
        (read_lem : (c : C)
          → let rows = take (suc n) (ordered (λ x. fits x && after c x)) in
            read c w ≡ (
              ok (record {
                items = map view rows;
                next_cursor = map_option cursor (last_of_page (map view rows) (suc n));
              }),
              w,
            )) where
      abbrev pub rest : C → List A
      rest c = ordered (λ x. fits x && after c x)

      step :
          (c : C) (x : A)
          → last_of_page (take (suc n) (rest c)) (suc n) ≡ some x
          → rest (cursor (view x)) ≡ drop (suc n) (rest c)
      step c x e =
          let (m, h) =
            ordered-Memᴰ (λ y. fits y && after c y) x (last_Memᴰ before o n (rest c) x e) in
          ordered-drop (λ y. fits y && after c y) (λ y. fits y && after (cursor (view x)) y) n x e
            (λ y. ground (arith, after_cursor x y, after_trans c x y))

      abbrev next_of : C → Option C
      next_of c = map_option cursor (last_of_page (map view (take (suc n) (rest c))) (suc n))

      next_of-eq :
          (c : C)
          → next_of c
            ≡ map_option (λ x. cursor (view x)) (last_of_page (take (suc n) (rest c)) (suc n))
      next_of-eq c =
          ap (map_option cursor) (get_elem?-map view (take (suc n) (rest c)) n)
          ∙ map_option-twice cursor view (last_of_page (take (suc n) (rest c)) (suc n))

      -- With more fuel than there are rows left, the pages from a cursor on hold these rows.
      pub pages-all :
          (fuel : ℕ) (c : C)
          → length (rest c) < fuel
          → pages read fuel c w ≡ (ok (some (map view (rest c))), w)
      pages-all zero c h = ground arith
      pages-all (suc fuel) c h =
          elim (Option-cases (last_of_page (take (suc n) (rest c)) (suc n))) [
            | inl e ↦
                pages-last read fuel c w (map view (take (suc n) (rest c))) (next_of c) (read_lem c)
                  (next_of-eq c ∙ ap (map_option (λ x. cursor (view x))) e)
                ∙ ap (λ xs. (ok (some (map view xs)), w)) (take-all n (rest c) e)
            | inr (x, e) ↦
                pages-next read fuel c (cursor (view x)) w (map view (take (suc n) (rest c)))
                  (map view (drop (suc n) (rest c))) (next_of c) (read_lem c)
                  (next_of-eq c ∙ ap (map_option (λ x. cursor (view x))) e)
                  (pages-all fuel (cursor (view x))
                      (ground (arith, length-drop_page n (rest c) x e, ap length (step c x e)))
                    ∙ ap (λ xs. (ok (some (map view xs)), w)) (step c x e))
                ∙ ap (λ xs. (ok (some xs), w))
                    (sym (map-append view (take (suc n) (rest c)) (drop (suc n) (rest c)))
                      ∙ ap (map view) (take-append-drop (suc n) (rest c)))
          ]

pub map_id : {A : Type 0} (xs : List A) → map (λ x. x) xs ≡ xs
map_id [] = refl
map_id (x ∷ xs) = ap (λ ys. x ∷ ys) (map_id xs)

-- What holds of all pairs implies what it implies for each.
All-map_to :
    {A : Type 0} {P Q : A → Type 0} → ((x : A) → P x → Q x) → (xs : List A) → All P xs → All Q xs
All-map_to f [] h = tt
All-map_to f (x ∷ xs) (h, hs) = (f x h, All-map_to f xs hs)

pub Pairs-map_to :
    {A : Type 0} {R S : A → A → Type 0}
    → ((x y : A) → R x y → S x y)
    → (xs : List A) → Pairs R xs
    → Pairs S xs
Pairs-map_to f [] h = tt
Pairs-map_to f (x ∷ xs) (h, hs) = (All-map_to (f x) xs h, Pairs-map_to f xs hs)

-- A page that leads to pages that lead to themselves is never left behind.
pub pages-stuck :
    {A C : Type 0} (read : C → Action (Page A C)) (w : World) (IsStuck : C → Type 0)
    → ((c : C)
        → IsStuck c
        → (page : Page A C) × (next : C) × (read c w ≡ (ok page, w))
          × (page.next_cursor ≡ some next)
          × IsStuck next)
    → (fuel : ℕ) (c : C) → IsStuck c
    → pages read fuel c w ≡ (ok none, w)
unfolding pages
pages-stuck read w IsStuck step zero c h = refl
pages-stuck read w IsStuck step (suc fuel) c h =
    let (page, next, ran, e, k) = step c h in
    ground (arith, ran, e, pages-stuck read w IsStuck step fuel next k)

-- Reading returned a page of at most so many elements, of each of which something holds, and changed
-- nothing.
abbrev pub IsPage : {A C : Type 0} → (A → Type 0) → ℕ → World → Result (Page A C) × World → Type 0
IsPage {A} {C} P limit w result =
    (page : Page A C) × (result ≡ (ok page, w)) × All P page.items × (length page.items ≤ limit)
