-- ===== src/Dict.antt =====
-- Go's maps from strings, as association lists. A `range` loop visits the list in its order; Go
-- leaves the order open.
pub mod Laws
pub mod Distinct
use apigw.Common.{String, ◌==◌, if◌then◌else◌, Bool, is_some, List, [], ◌∷◌, Option, none, some}

abbrev pub Dict {ℓ} : Type ℓ → Type ℓ
Dict V = List (String × V)

module _ {ℓ} {V : Type ℓ} where
  -- `v, ok := m[name]`
  unfoldable pub lookup : String → Dict V → Option V
  lookup name [] = none
  lookup name ((key, value) ∷ tail) = if key == name then some value else lookup name tail

  -- `_, ok := m[name]`
  abbrev pub has : String → Dict V → Bool
  has name m = is_some (lookup name m)

  -- `delete(m, name)`
  unfoldable pub delete : String → Dict V → Dict V
  delete name [] = []
  delete name ((key, value) ∷ tail) =
      let others = delete name tail in if key == name then others else (key, value) ∷ others

  -- `m[name] = new`
  unfoldable pub insert : String → V → Dict V → Dict V
  insert name new [] = (name, new) ∷ []
  insert name new ((key, old) ∷ tail) =
      if key == name then (name, new) ∷ tail else (key, old) ∷ insert name new tail

  abbrev pub keys : Dict V → List String
  keys [] = []
  keys ((k, v) ∷ m) = k ∷ keys m

  abbrev pub values : Dict V → List V
  values [] = []
  values ((k, v) ∷ m) = v ∷ values m
