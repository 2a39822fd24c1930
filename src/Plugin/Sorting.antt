-- ===== src/Plugin/Sorting.antt =====
-- `Plugins.Sort` sorts by ascending priority and keeps the order of equal priorities.
use mathlib.Core.List.Perm
use mathlib.Core.List.{Perm}
use mathlib.Core.Path.{sym}
use apigw.Common.{
  ◌≡◌, refl, List, [], ◌∷◌, true, false, inl, inr, arith, All, Bool-cases, if◌then◌else◌, ◌∙◌, ◌↔◌,
  subst,
}
use apigw.Common.Int.{ℤ, ltb_ℤ, ltb_ℤ-asymm, ltb_ℤ-irrefl, ltb_ℤ-trans_ge}
use apigw.Plugin.{Plugin, less, insert_sorted, sort}

module _ {W C : Type 0} where
  -- No plugin has a lower priority than one that stands before it.
  abbrev pub IsSorted : List (Plugin W C) → Type 0
  IsSorted [] = Unit
  IsSorted (p ∷ ps) = All (λ q. ltb_ℤ q.prio p.prio ≡ false) ps × IsSorted ps

  -- The plugins of one priority, in order.
  abbrev pub of_prio : ℤ → List (Plugin W C) → List (Plugin W C)
  of_prio k [] = []
  of_prio k (p ∷ ps) =
      let rest = of_prio k ps in
      if ltb_ℤ p.prio k then rest else if ltb_ℤ k p.prio then rest else p ∷ rest

  All-insert_sorted :
      (r p : Plugin W C) (ps : List (Plugin W C))
      → ltb_ℤ p.prio r.prio ≡ false
      → All (λ q. ltb_ℤ q.prio r.prio ≡ false) ps
      → All (λ q. ltb_ℤ q.prio r.prio ≡ false) (insert_sorted p ps)
  unfolding insert_sorted
  All-insert_sorted r p [] h a = (h, tt)
  All-insert_sorted r p (q ∷ qs) h a = elim (Bool-cases (less q p)) [
    | inl below ↦ rw below (a.0, All-insert_sorted r p qs h a.1)
    | inr here ↦ rw here (h, a)
  ]

  All-trans :
      (p q : Plugin W C) (qs : List (Plugin W C))
      → ltb_ℤ q.prio p.prio ≡ false
      → All (λ r. ltb_ℤ r.prio q.prio ≡ false) qs
      → All (λ r. ltb_ℤ r.prio p.prio ≡ false) qs
  All-trans p q [] h a = tt
  All-trans p q (r ∷ qs) h a = (ltb_ℤ-trans_ge p.prio q.prio r.prio h a.0, All-trans p q qs h a.1)

  insert_sorted-IsSorted :
      (p : Plugin W C) (ps : List (Plugin W C)) → IsSorted ps → IsSorted (insert_sorted p ps)
  unfolding insert_sorted less
  insert_sorted-IsSorted p [] s = (tt, tt)
  insert_sorted-IsSorted p (q ∷ qs) s = elim (Bool-cases (ltb_ℤ q.prio p.prio)) [
    | inl below ↦ rw below (
      All-insert_sorted q p qs (ltb_ℤ-asymm q.prio p.prio below) s.0,
      insert_sorted-IsSorted p qs s.1,
    )
    | inr here ↦ rw here ((here, All-trans p q qs here s.0), s)
  ]

  sort-IsSorted : (ps : List (Plugin W C)) → IsSorted (sort ps)
  unfolding sort
  sort-IsSorted [] = tt
  sort-IsSorted (p ∷ ps) = insert_sorted-IsSorted p (sort ps) (sort-IsSorted ps)

  of_prio-insert_sorted :
      (k : ℤ) (p : Plugin W C) (ps : List (Plugin W C))
      → of_prio k (insert_sorted p ps) ≡ of_prio k (p ∷ ps)
  unfolding insert_sorted less
  of_prio-insert_sorted k p [] = refl
  of_prio-insert_sorted k p (q ∷ qs) = elim (Bool-cases (ltb_ℤ q.prio p.prio)) [
    | inl below ↦ ground (arith, of_prio-insert_sorted k p qs, ltb_ℤ-trans_ge p.prio k q.prio)
    | inr here ↦ rw here
  ]

  perm-insert_sorted :
      (p : Plugin W C) (ps : List (Plugin W C)) → Perm (insert_sorted p ps) (p ∷ ps)
  unfolding insert_sorted
  perm-insert_sorted p [] = Perm.refl _
  perm-insert_sorted p (q ∷ qs) = elim (Bool-cases (less q p)) [
    | inl below ↦ rw below (Perm.trans (Perm.cons q (perm-insert_sorted p qs)) (Perm.swap p q qs))
    | inr here ↦ rw here (Perm.refl _)
  ]

  sort-perm : (ps : List (Plugin W C)) → Perm (sort ps) ps
  unfolding sort
  sort-perm [] = Perm.refl _
  sort-perm (p ∷ ps) = Perm.trans (perm-insert_sorted p (sort ps)) (Perm.cons p (sort-perm ps))

  of_prio-sort : (k : ℤ) (ps : List (Plugin W C)) → of_prio k (sort ps) ≡ of_prio k ps
  unfolding sort
  of_prio-sort k [] = refl
  of_prio-sort k (p ∷ ps) = of_prio-insert_sorted k p (sort ps) ∙ rw (of_prio-sort k ps)

  of_prio_below :
      (k : ℤ) (q : Plugin W C) (qs : List (Plugin W C))
      → ltb_ℤ k q.prio ≡ true
      → All (λ r. ltb_ℤ r.prio q.prio ≡ false) qs
      → of_prio k qs ≡ []
  of_prio_below k q [] below a = refl
  of_prio_below k q (r ∷ rs) below a =
      ground (arith, of_prio_below k q rs below a.1, ltb_ℤ-trans_ge q.prio r.prio k)

  -- A sorted list whose first priority is above `k` has no plugin of priority `k`.
  of_prio_of_IsSorted :
      (k : ℤ) (q : Plugin W C) (qs : List (Plugin W C))
      → ltb_ℤ k q.prio ≡ true
      → IsSorted (q ∷ qs)
      → of_prio k (q ∷ qs) ≡ []
  of_prio_of_IsSorted k q qs below s = ground (arith, of_prio_below k q qs below s.0)

  of_prio_self :
      (p : Plugin W C) (ps : List (Plugin W C)) → of_prio p.prio (p ∷ ps) ≡ p ∷ of_prio p.prio ps
  of_prio_self p ps = ground (arith, ltb_ℤ-irrefl p.prio)

  of_prio_same :
      (p q : Plugin W C) (qs : List (Plugin W C))
      → ltb_ℤ p.prio q.prio ≡ false
      → ltb_ℤ q.prio p.prio ≡ false
      → of_prio p.prio (q ∷ qs) ≡ q ∷ of_prio p.prio qs
  of_prio_same p q qs a b = ground (arith)

  of_prio-cancel :
      (k : ℤ) (p : Plugin W C) (ps qs : List (Plugin W C))
      → of_prio k (p ∷ ps) ≡ of_prio k (p ∷ qs)
      → of_prio k ps ≡ of_prio k qs
  of_prio-cancel k p ps qs e = ground (arith)

  -- Two sorted lists that agree at every priority are equal.
  of_prio-ext :
      (ps qs : List (Plugin W C))
      → IsSorted ps
      → IsSorted qs
      → ((k : ℤ) → of_prio k ps ≡ of_prio k qs)
      → ps ≡ qs
  of_prio-ext [] [] s t same = refl
  of_prio-ext [] (q ∷ qs) s t same = cc (same q.prio, of_prio_self q qs)
  of_prio-ext (p ∷ ps) [] s t same = cc (same p.prio, of_prio_self p ps)
  of_prio-ext (p ∷ ps) (q ∷ qs) s t same = elim (Bool-cases (ltb_ℤ p.prio q.prio)) [
    | inl above ↦ cc (same p.prio, of_prio_self p ps, of_prio_of_IsSorted p.prio q qs above t)
    | inr a ↦ elim (Bool-cases (ltb_ℤ q.prio p.prio)) [
      | inl below ↦ cc (same q.prio, of_prio_self q qs, of_prio_of_IsSorted q.prio p ps below s)
      | inr b ↦
          let e : p ≡ q = cc (same p.prio, of_prio_self p ps, of_prio_same p q qs a b) in
          let rest : ps ≡ qs =
            of_prio-ext ps qs s.1 t.1 (λ k. of_prio-cancel k p ps qs (rw (← e) at (same k))) in
          cc (e, rest)
    ]
  ]

  -- `Sort` leaves the one list that stands in ascending priority, holds the same plugins, and for
  -- every priority keeps the order of the plugins that have it.
  pub sort-IsStableSort :
      (ps qs : List (Plugin W C))
      → (qs ≡ sort ps) ↔ (IsSorted qs × Perm qs ps × ((k : ℤ) → of_prio k qs ≡ of_prio k ps))
  sort-IsStableSort ps qs = (
    λ e.
        subst (λ l. IsSorted l × Perm l ps × ((k : ℤ) → of_prio k l ≡ of_prio k ps)) (sym e)
          (sort-IsSorted ps, sort-perm ps, λ k. of_prio-sort k ps),
    λ v. of_prio-ext qs (sort ps) v.0 (sort-IsSorted ps) (λ k. v.2 k ∙ sym (of_prio-sort k ps)),
  )

  insert_sorted_of_IsSorted :
      (p : Plugin W C) (ps : List (Plugin W C))
      → All (λ q. ltb_ℤ q.prio p.prio ≡ false) ps
      → insert_sorted p ps ≡ p ∷ ps
  unfolding insert_sorted less
  insert_sorted_of_IsSorted p [] a = refl
  insert_sorted_of_IsSorted p (q ∷ qs) a = rw a.0

  -- A list in ascending priority is left as it is.
  pub sort_of_IsSorted : (ps : List (Plugin W C)) → IsSorted ps → sort ps ≡ ps
  unfolding sort
  sort_of_IsSorted [] s = refl
  sort_of_IsSorted (p ∷ ps) s = rw (sort_of_IsSorted ps s.1) (insert_sorted_of_IsSorted p ps s.0)
