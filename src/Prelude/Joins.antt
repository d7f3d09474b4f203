-- ===== src/Prelude/Joins.antt =====
-- `INNER JOIN`, `LEFT JOIN`, `GROUP BY` and objects that are keyed by an id.
use mathlib.Core.Bool.{Bool, not}
use mathlib.Core.Option.{Option, none, some}
use mathlib.Core.List.{List, [], ◌∷◌, map}
use Prim.Native.Nat.{ℕ}
use be.Prelude.Tests.{◌==◌, if◌then◌else◌}
use be.Prelude.Lists.{keep, flat_map, some_of}

-- The rows of the right side for one row of the left side, or a row of nulls.
abbrev pub or_null : {A : Type 0} → List A → List (Option A)
or_null [] = none ∷ []
or_null (y ∷ ys) = map (λ z. some z) (y ∷ ys)

module _ {A B : Type 0} where
  abbrev pub join : (A → B → Bool) → List A → List B → List (A × B)
  join on xs ys = flat_map (λ x. map (λ y. (x, y)) (keep (on x) ys)) xs

  abbrev pub left_join : (A → B → Bool) → List A → List B → List (A × Option B)
  left_join on xs ys = flat_map (λ x. map (λ y. (x, y)) (or_null (keep (on x) ys))) xs

-- One row of each group of rows that agree.
abbrev pub group_by : {A : Type 0} → (A → A → Bool) → List A → List A
group_by same [] = []
group_by same (x ∷ xs) = x ∷ keep (λ y. not (same x y)) (group_by same xs)

abbrev pub one_of : List ℕ → ℕ → Bool
one_of ids id = some_of (λ x. x == id) ids

module _ {V : Type 0} where
  -- `result[key]`, in an object that lists its properties in the order in which they were added, as
  -- it does with keys that are UUIDs.
  abbrev pub get : ℕ → List (ℕ × V) → Option V
  get key [] = none
  get key ((k, v) ∷ rest) = if k == key then some v else get key rest

  -- `result[key] = value`
  abbrev pub put : ℕ → V → List (ℕ × V) → List (ℕ × V)
  put key value [] = (key, value) ∷ []
  put key value ((k, v) ∷ rest) =
      let others = put key value rest in if k == key then (k, value) ∷ rest else (k, v) ∷ others

  -- `rows.forEach`: a row begins the value of its key where there is none, and is then added to it.
  abbrev pub collect_by :
      {Row : Type 0}
      → (Row → ℕ)
      → (Row → V)
      → (Row → V → V)
      → List Row
      → List (ℕ × V)
      → List (ℕ × V)
  collect_by key start add [] result = result
  collect_by key start add (row ∷ rows) result =
      let value : V = elim (get (key row) result) [ none ↦ start row | some v ↦ v ] in
      collect_by key start add rows (put (key row) (add row value) result)

  -- `Object.values(result)`
  abbrev pub values : List (ℕ × V) → List V
  values result = map (λ entry. entry.1) result
