-- ===== src/Dict/Distinct.antt =====
-- Maps in which every key stands once, as it does in Go's.
use apigw.Common.{String, ◌==◌, eq_iff, [], ◌∷◌, none, ◌≡◌, refl, arith, Bool-cases, inl, inr}
use apigw.Dict.{Dict, lookup, insert, delete}
use apigw.Dict.Laws.{lookup-insert, lookup-delete}

module _ {ℓ} {V : Type ℓ} where
  abbrev pub Distinct : Dict V → Type ℓ
  Distinct [] = Unit
  Distinct ((k, v) ∷ m) = (lookup k m ≡ none) × Distinct m

  pub Distinct-insert : (k : String) (v : V) (m : Dict V) → Distinct m → Distinct (insert k v m)
  unfolding insert lookup
  Distinct-insert k v [] d = (refl, tt)
  Distinct-insert k v ((j, w) ∷ m) d = elim (Bool-cases (j == k)) [
    | inl same ↦ let e : j ≡ k = (eq_iff j k).0 same in rw same (rw (← e) d.0, d.1)
    | inr other ↦
        let still : lookup j (insert k v m) ≡ none =
          ground (arith, lookup-insert k j v m, eq_iff k j, eq_iff j k, d.0) in
        rw other (still, Distinct-insert k v m d.1)
  ]

  pub Distinct-delete : (k : String) (m : Dict V) → Distinct m → Distinct (delete k m)
  unfolding delete
  Distinct-delete k [] d = tt
  Distinct-delete k ((j, w) ∷ m) d = elim (Bool-cases (j == k)) [
    | inl same ↦ rw same (Distinct-delete k m d.1)
    | inr other ↦
        let still : lookup j (delete k m) ≡ none = ground (arith, lookup-delete k j m, d.0) in
        rw other (still, Distinct-delete k m d.1)
  ]
