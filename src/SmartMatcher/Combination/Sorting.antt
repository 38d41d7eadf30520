-- ===== src/SmartMatcher/Combination/Sorting.antt =====
-- The order that `findCombinationSum` puts the items in.
use xeno_reconciliation.Prelude.{arith}
use xeno_reconciliation.Prelude.{All, All-mono, ◌≡◌, inl, inr, true, List, [], ◌∷◌, Bool-cases}
use xeno_reconciliation.Prelude.Int.{leb_ℤ, ltb_ℤ, leb_ℤ, ltb_ℤ}
use xeno_reconciliation.SmartMatcher.Combination.{Item, insert_sorted, sort_descending}

-- What holds of every item holds of every item in the order.
module _ {ℓ κ} {A : Type ℓ} (P : Item A → Type κ) where
  All-insert_sorted : (x : Item A) (l : List (Item A)) → P x → All P l → All P (insert_sorted x l)
  unfolding insert_sorted
  All-insert_sorted x [] p h = (p, tt)
  All-insert_sorted x (y ∷ ys) p (q, h) = elim (Bool-cases (ltb_ℤ x.amount y.amount)) [
    | inl smaller ↦ rw smaller (q, All-insert_sorted x ys p h)
    | inr other ↦ rw other (p, (q, h))
  ]

  pub All-sort_descending : (l : List (Item A)) → All P l → All P (sort_descending l)
  unfolding sort_descending
  All-sort_descending [] h = tt
  All-sort_descending (x ∷ l) (p, h) =
      All-insert_sorted x (sort_descending l) p (All-sort_descending l h)

module _ {ℓ} {A : Type ℓ} where
  -- No item has a smaller amount than a later one.
  abbrev pub IsDescending : List (Item A) → Type 0
  IsDescending [] = Unit
  IsDescending (x ∷ l) = All (λ y. leb_ℤ y.amount x.amount ≡ true) l × IsDescending l

  insert_sorted-IsDescending :
      (x : Item A) (l : List (Item A)) → IsDescending l → IsDescending (insert_sorted x l)
  unfolding insert_sorted
  insert_sorted-IsDescending x [] h = (tt, tt)
  insert_sorted-IsDescending x (y ∷ ys) (below, h) = elim (Bool-cases (ltb_ℤ x.amount y.amount)) [
    | inl smaller ↦ rw smaller (
      All-insert_sorted (λ z. leb_ℤ z.amount y.amount ≡ true) x ys (ground (arith, smaller)) below,
      insert_sorted-IsDescending x ys h,
    )
    | inr other ↦
        rw other (
          (ground (arith, other), All-mono (λ z le. ground (arith, le, other)) ys below),
          (below, h),
        )
  ]

  pub sort_descending-IsDescending : (l : List (Item A)) → IsDescending (sort_descending l)
  unfolding sort_descending
  sort_descending-IsDescending [] = tt
  sort_descending-IsDescending (x ∷ l) =
      insert_sorted-IsDescending x (sort_descending l) (sort_descending-IsDescending l)
