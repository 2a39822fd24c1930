-- ===== src/Dict/Laws.antt =====
-- The laws of the maps.
use apigw.Common.{
  String, ◌==◌, eq_iff, eq_refl, if◌then◌else◌, [], ◌∷◌, none, some, ◌≡◌, refl, arith, Bool-cases,
  inl, inr,
}
use apigw.Dict.{Dict, lookup, insert, delete}

module _ {ℓ} {V : Type ℓ} where
  pub lookup-delete :
      (name other : String) (m : Dict V)
      → lookup other (delete name m) ≡ (if name == other then none else lookup other m)
  unfolding lookup delete
  lookup-delete name other [] = ground arith
  lookup-delete name other ((key, old) ∷ tail) =
      ground
        (arith, lookup-delete name other tail, eq_iff key name, eq_iff key other, eq_iff name other)

  pub lookup-insert :
      (name other : String) (new : V) (m : Dict V)
      → lookup other (insert name new m) ≡ (if name == other then some new else lookup other m)
  unfolding insert lookup
  lookup-insert name other new [] = refl
  lookup-insert name other new ((key, old) ∷ tail) = ground (
    arith,
    lookup-insert name other new tail,
    eq_iff key name,
    eq_iff key other,
    eq_iff name other,
  )

  pub lookup-insert_self : (k : String) (v : V) (m : Dict V) → lookup k (insert k v m) ≡ some v
  lookup-insert_self k v m = simp (lookup-insert, eq_refl)

  pub lookup-delete_self : (k : String) (m : Dict V) → lookup k (delete k m) ≡ none
  lookup-delete_self k m = simp (lookup-delete, eq_refl)

-- A property of every entry of a map.
module _ {ℓ κ} {V : Type ℓ} (P : String → V → Type κ) where
  abbrev pub Every : Dict V → Type κ
  Every [] = Unit
  Every ((k, v) ∷ m) = P k v × Every m

  pub Every-lookup : (k : String) (m : Dict V) {v : V} → Every m → lookup k m ≡ some v → P k v
  unfolding lookup
  Every-lookup k [] h e = cc
  Every-lookup k ((j, w) ∷ m) {v} h e = elim (Bool-cases (j == k)) [
    | inl same ↦
        let same' : j ≡ k = (eq_iff j k).0 same in
        let e' : w ≡ v = ground arith in rw (← same', ← e') h.0
    | inr other ↦ Every-lookup k m h.1 (ground arith)
  ]

  pub Every-insert : (k : String) (v : V) (m : Dict V) → P k v → Every m → Every (insert k v m)
  unfolding insert
  Every-insert k v [] p h = (p, tt)
  Every-insert k v ((j, w) ∷ m) p h = elim (Bool-cases (j == k)) [
    | inl same ↦ rw same (p, h.1)
    | inr other ↦ rw other (h.0, Every-insert k v m p h.1)
  ]

  pub Every-delete : (k : String) (m : Dict V) → Every m → Every (delete k m)
  unfolding delete
  Every-delete k [] h = tt
  Every-delete k ((j, w) ∷ m) h = elim (Bool-cases (j == k)) [
    | inl same ↦ rw same (Every-delete k m h.1)
    | inr other ↦ rw other (h.0, Every-delete k m h.1)
  ]
