-- ===== src/SmartMatcher/Combination/Laws.antt =====
-- What `findCombinationSum` answers, against an independent description: a selection of the items
-- whose sum is near the target, found wherever the ten largest items have one of two or more.
use Prim.Native.Nat.{◌^◌}
use xeno_reconciliation.Prelude.{
  ℕ, zero, suc, ◌-◌, ◌≤◌, ◌<◌, ◌≡◌, sym, ap, ◌∙◌, ◌≢◌, inl, inr, true, none, some, List, [], length,
  take, arith, Option-cases, Perm, All,
}
use xeno_reconciliation.Prelude.Int.{ℤ, pos, sum_of, sum_of-nil}
use xeno_reconciliation.SmartMatcher.Tolerance.{is_within}
use xeno_reconciliation.SmartMatcher.Combination.{
  Item, amount_of, sort_descending, greedy, subset_of, first_subset, find_combination_sum,
}
use xeno_reconciliation.SmartMatcher.Combination.Picked.{Picked, done, keep, skip, Picked-take}
use xeno_reconciliation.SmartMatcher.Combination.Sorting.{
  IsDescending, sort_descending-IsDescending, All-sort_descending,
}
use xeno_reconciliation.SmartMatcher.Combination.Greedy.{sort_descending-perm, greedy_sound}
use xeno_reconciliation.SmartMatcher.Combination.Subsets.{
  zero_mask, mask_of-Picked, first_subset_sound, first_subset_complete,
}

module _ {ℓ} {A : Type ℓ} where
  abbrev limited : List (Item A) → List (Item A)
  limited items = take 10 (sort_descending items)

  find_by_greedy :
      (items : List (Item A)) (target : ℤ) (tol : ℕ) {r : List (Item A)}
      → greedy target tol (pos 0) [] (sort_descending items) ≡ some r
      → find_combination_sum items target tol ≡ r
  unfolding find_combination_sum
  find_by_greedy items target tol e = rw (e, find_combination_sum)

  find_by_subsets :
      (items : List (Item A)) (target : ℤ) (tol : ℕ)
      → greedy target tol (pos 0) [] (sort_descending items) ≡ none
      → find_combination_sum items target tol
        ≡ first_subset target tol (limited items) (2 ^ length (limited items) - 1) 1
  unfolding find_combination_sum
  find_by_subsets items target tol e = rw (e, find_combination_sum)

  Found : List (Item A) → ℤ → ℕ → List (Item A) → Type ℓ
  Found items target tol r =
      Picked r (sort_descending items) × (is_within tol (sum_of amount_of r) target ≡ true)

  greedy-Found :
      (items : List (Item A)) (target : ℤ) (tol : ℕ) (r : List (Item A))
      → greedy target tol (pos 0) [] (sort_descending items) ≡ some r
      → Found items target tol r × (r ≢ [])
  unfolding Found
  greedy-Found items target tol r e =
      let (q, joined, picked, full, near) =
        greedy_sound target tol (pos 0) [] (sort_descending items) r
          (sym (sum_of-nil {A = Item A} amount_of)) e in
      ((rw joined picked, near), (λ empty. full (sym joined ∙ empty)))

  -- An answer of `findCombinationSum` that is not empty is a selection of the items, each used at
  -- most once, whose sum is within the tolerance of the target.
  pub find_combination_sum_sound :
      (items : List (Item A)) (target : ℤ) (tol : ℕ)
      → find_combination_sum items target tol ≢ []
      → Perm (sort_descending items) items
        × Picked (find_combination_sum items target tol) (sort_descending items)
        × (is_within tol (sum_of amount_of (find_combination_sum items target tol)) target ≡ true)
  unfolding Found
  find_combination_sum_sound items target tol full =
      elim (Option-cases (greedy target tol (pos 0) [] (sort_descending items))) [
        | inr (r, e) ↦
            let ((picked, near), _) = greedy-Found items target tol r e in
            rw (find_by_greedy items target tol e) (sort_descending-perm items, picked, near)
        | inl e ↦
            let (picked, (_, near)) =
              first_subset_sound target tol (limited items) (2 ^ length (limited items) - 1) 1
                (find_combination_sum items target tol) (sym (find_by_subsets items target tol e))
                full in
            (sort_descending-perm items, Picked-take 10 _ (sort_descending items) picked, near)
      ]

  found_by :
      (items : List (Item A)) (target : ℤ) (tol : ℕ) (r : List (Item A))
      → Picked r (take 10 (sort_descending items))
      → 1 < length r
      → is_within tol (sum_of amount_of r) target ≡ true
      → find_combination_sum items target tol ≢ []
  found_by items target tol r picked long near =
      elim (Option-cases (greedy target tol (pos 0) [] (sort_descending items))) [
        | inr (q, e) ↦ rw (find_by_greedy items target tol e) (greedy-Found items target tol q e).1
        | inl e ↦
            let (mask, same, small) = mask_of-Picked picked in
            rw (find_by_subsets items target tol e) (
              first_subset_complete target tol (limited items) (2 ^ length (limited items) - 1) 1
                mask (positive mask same) (omega arith) (rw same (long, near)))
      ]
    where
      positive : (mask : ℕ) → subset_of mask (limited items) ≡ r → 1 ≤ mask
      positive zero e =
          absurd (omega (arith, ap length (sym (zero_mask (limited items)) ∙ e), long))
      positive (suc mask) e = omega arith

  -- The items are sorted by their amounts, the largest first; and where some two or more of the first
  -- ten, the ten largest, have a sum within the tolerance of the target, `findCombinationSum` finds a
  -- selection.
  pub find_combination_sum_complete :
      (items : List (Item A)) (target : ℤ) (tol : ℕ) (r : List (Item A))
      → Picked r (take 10 (sort_descending items))
      → 1 < length r
      → is_within tol (sum_of amount_of r) target ≡ true
      → Perm (sort_descending items) items
        × IsDescending (sort_descending items)
        × (find_combination_sum items target tol ≢ [])
  find_combination_sum_complete items target tol r picked long near = (
    sort_descending-perm items,
    sort_descending-IsDescending items,
    found_by items target tol r picked long near,
  )

-- What holds of every item holds of every item of an answer.
module _ {ℓ κ} {A : Type ℓ} (P : Item A → Type κ) where
  All-Picked : {r l : List (Item A)} → Picked r l → All P l → All P r
  All-Picked done h = tt
  All-Picked (keep q) (p, h) = (p, All-Picked q h)
  All-Picked (skip q) (p, h) = All-Picked q h

  pub All-find_combination_sum :
      (items : List (Item A)) (target : ℤ) (tol : ℕ)
      → find_combination_sum items target tol ≢ []
      → All P items
      → All P (find_combination_sum items target tol)
  All-find_combination_sum items target tol full h =
      let (_, picked, _) = find_combination_sum_sound items target tol full in
      All-Picked picked (All-sort_descending P items h)
