-- ===== src/SmartMatcher/Combination/Greedy.antt =====
-- What the first loop of `findCombinationSum` answers.
use mathlib.Core.List.Perm
use xeno_reconciliation.Prelude.{
  ℕ, ◌≡◌, refl, sym, ap, ◌∙◌, ◌≢◌, inl, inr, Bool, true, some, List, [], ◌∷◌, ◌++◌, append_assoc,
  if◌then◌else◌, Bool-cases, Perm,
}
use xeno_reconciliation.Prelude.Int.{
  ℤ, pos, ◌+ℤ◌, ◌*ₙ◌, leb_ℤ, ltb_ℤ, sum_of, sum_of-append, sum_of-cons, sum_of-nil, int_laws,
}
use xeno_reconciliation.SmartMatcher.Tolerance.{is_within}
use xeno_reconciliation.SmartMatcher.Combination.{
  Item, amount_of, insert_sorted, sort_descending, greedy,
}
use xeno_reconciliation.SmartMatcher.Combination.Picked.{Picked, keep, skip, Picked-nil}

-- `sum <= target + tolerance`
abbrev fits : ℤ → ℕ → ℤ → Bool
fits target tol sum = leb_ℤ (100 *ₙ sum) (100 *ₙ target +ℤ pos tol)

some_inj {ℓ} : {A : Type ℓ} (a b : A) → some a ≡ some b → a ≡ b
some_inj a b h = cc

module _ {ℓ} {A : Type ℓ} where
  insert_sorted-perm : (x : Item A) (l : List (Item A)) → Perm (insert_sorted x l) (x ∷ l)
  unfolding insert_sorted
  insert_sorted-perm x [] = Perm.refl _
  insert_sorted-perm x (y ∷ ys) = elim (Bool-cases (ltb_ℤ x.amount y.amount)) [
    | inl smaller ↦
        rw smaller (Perm.trans (Perm.cons y (insert_sorted-perm x ys)) (Perm.swap x y ys))
    | inr other ↦ rw other (Perm.refl _)
  ]

  pub sort_descending-perm : (l : List (Item A)) → Perm (sort_descending l) l
  unfolding sort_descending
  sort_descending-perm [] = Perm.refl _
  sort_descending-perm (x ∷ l) =
      Perm.trans (insert_sorted-perm x (sort_descending l)) (Perm.cons x (sort_descending-perm l))

  greedy-cons :
      (target : ℤ) (tol : ℕ) (sum : ℤ) (result : List (Item A)) (x : Item A) (l : List (Item A))
      → greedy target tol sum result (x ∷ l) ≡ (
          if fits target tol (sum +ℤ x.amount)
          then (if is_within tol (sum +ℤ x.amount) target
              then some (result ++ x ∷ [])
              else greedy target tol (sum +ℤ x.amount) (result ++ x ∷ []) l)
          else greedy target tol sum result l)
  unfolding greedy
  greedy-cons target tol sum result x l = refl

  sum-snoc :
      (result : List (Item A)) (x : Item A)
      → sum_of amount_of result +ℤ x.amount ≡ sum_of amount_of (result ++ x ∷ [])
  sum-snoc result x =
      rw
        (
          sum_of-append amount_of result (x ∷ []),
          sum_of-cons amount_of x [],
          sum_of-nil {A = Item A} amount_of,
        )
        (omega int_laws)

  -- What the first loop returns: at least one more item, picked from the rest, with a sum near
  -- the target.
  abbrev IsGreedy : ℤ → ℕ → List (Item A) → List (Item A) → List (Item A) → Type ℓ
  IsGreedy target tol result l r =
      (q : List (Item A)) × (r ≡ result ++ q)
      × Picked q l
      × (q ≢ [])
      × (is_within tol (sum_of amount_of r) target ≡ true)

  pub greedy_sound :
      (target : ℤ) (tol : ℕ) (sum : ℤ) (result l r : List (Item A))
      → sum ≡ sum_of amount_of result
      → greedy target tol sum result l ≡ some r
      → IsGreedy target tol result l r
  greedy_sound target tol sum result [] r e h = unfold greedy in cc
  greedy_sound target tol sum result (x ∷ l) r e h =
      elim (Bool-cases (fits target tol (sum +ℤ x.amount))) [
        | inl room ↦ elim (Bool-cases (is_within tol (sum +ℤ x.amount) target)) [
          | inl near ↦
              let same : result ++ x ∷ [] ≡ r =
                some_inj _ _ (rw (greedy-cons target tol sum result x l, room, near) at h) in
              let total : sum +ℤ x.amount ≡ sum_of amount_of r =
                rw e (sum-snoc result x) ∙ ap (sum_of amount_of) same in
              (x ∷ [], sym same, keep (Picked-nil l), (λ p. cc), rw total at near)
          | inr far ↦
              let (q, joined, picked, full, near) =
                greedy_sound target tol (sum +ℤ x.amount) (result ++ x ∷ []) l r
                  (rw e (sum-snoc result x))
                  (rw (greedy-cons target tol sum result x l, room, far) at h) in
              (x ∷ q, joined ∙ append_assoc result (x ∷ []) q, keep picked, (λ p. cc), near)
        ]
        | inr over ↦
            let (q, joined, picked, full, near) =
              greedy_sound target tol sum result l r e
                (rw (greedy-cons target tol sum result x l, over) at h) in
            (q, joined, skip picked, full, near)
      ]
