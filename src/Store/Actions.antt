-- ===== src/Store/Actions.antt =====
-- The actions of which the services are composed.
use be.Prelude.{
  suc, Bool, Option, none, some, List, [], ◌∷◌, if◌then◌else◌, ◌≡◌, ◌∙◌, ap, sym, inl, inr,
  map_option, refl,
}
use be.Store.Rows.{Uuid, Time}
use be.Store.Errors.{Error}
use be.Store.State.{World, Result, ok, err, Action, rolled_back, Result-cases}
use be.Store.Outside.{Platform}

abbrev pub ⊤ : Type 0
⊤ = Unit

module _ {A : Type 0} where
  abbrev pub pure : A → Action A
  pure a w = (ok a, w)

  abbrev pub throw : Error → Action A
  throw e w = (err e, w)

  abbrev pub gets : (World → A) → Action A
  gets f w = (ok (f w), w)

  -- `if (!found) throw e`
  abbrev pub or_throw : Option A → Error → Action A
  or_throw o e w = (elim o [ none ↦ err e | some a ↦ ok a ], w)

  -- What an operation of the database client gives or throws.
  abbrev pub or_rethrow : Result A → Action A
  or_rethrow r w = (r, w)

  -- `try { m } catch (e) { … }`
  abbrev pub try_catch : Action A → (Error → Action A) → Action A
  try_catch m handle w = let (r, w') = m w in elim r [ ok a ↦ (ok a, w') | err e ↦ handle e w' ]

  -- A promise that is not awaited: it runs, and what it throws reaches nobody.
  abbrev pub background : Action A → Action ⊤
  background m w = (ok tt, (m w).1)

infixl 5 ◌>>=◌ ◌>>◌
abbrev pub ◌>>=◌ : {A B : Type 0} → Action A → (A → Action B) → Action B
◌>>=◌ m f w = let (r, w') = m w in elim r [ ok a ↦ f a w' | err e ↦ (err e, w') ]

abbrev pub ◌>>◌ : {A B : Type 0} → Action A → Action B → Action B
m >> k = m >>= λ _. k

abbrev pub modify : (World → World) → Action ⊤
modify f w = (ok tt, f w)

abbrev pub throw_if : Bool → Error → Action ⊤
throw_if c e w = (if c then err e else ok tt, w)

-- One call after the other.
abbrev pub for_each : {A : Type 0} → (A → Action ⊤) → List A → Action ⊤
for_each f [] = pure tt
for_each f (x ∷ xs) = f x >> for_each f xs

-- How a transaction that began in `w` settles the end of its body.
abbrev pub settled : {A : Type 0} → World → Result A × World → Result A × World
settled w (ok a, w') = (ok a, w')
settled w (err e, w') = (err e, rolled_back w w')

module _ ⦃p : Platform⦄ where
  -- `new Date()`
  unfoldable pub now : Action Time
  now w = (ok (p.clock w.ticks), record w { ticks = suc w.ticks })

  -- `v4()`
  unfoldable pub v4 : Action Uuid
  v4 w = (ok (p.uuid w.draws), record w { draws = suc w.draws })

  -- A transaction ends as its body does, and is undone where the body throws.
  pub transactional-eq :
      {A : Type 0} (m : Action A) (w : World) → p.transactional m w ≡ settled w (m w)
  transactional-eq m w = elim (Result-cases (m w)) [
    | inl (a, w', e) ↦ p.transactional_ok m w w' a e ∙ ap (settled w) (sym e)
    | inr (e, w', h) ↦ p.transactional_err m w w' e h ∙ ap (settled w) (sym h)
  ]

-- What is found where nothing is thrown.
pub or_throw_ok :
    {A B : Type 0} (f : A → B) (o : Option A) (e : Error) (w : World) (b : B)
    → or_throw (map_option f o) e w ≡ (ok b, w)
    → (a : A) × (o ≡ some a) × (f a ≡ b)
or_throw_ok f none e w b h = cc
or_throw_ok f (some a) e w b h = (a, refl, cc)
