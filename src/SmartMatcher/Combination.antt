-- ===== src/SmartMatcher/Combination.antt =====
-- `findCombinationSum`, src/services/reconciliation/SmartMatcher.ts.
pub mod Picked
pub mod Sorting
pub mod Greedy
pub mod Subsets
pub mod Laws
use xeno_reconciliation.Prelude.{
  ℕ, zero, suc, ◌+◌, ◌-◌, ◌*◌, ◌/◌, ◌%◌, Bool, true, false, ◌&&◌, Option, none, some, List, [], ◌∷◌,
  ◌++◌, length, take, ltb, nat_beq, if◌then◌else◌,
}
use Prim.Native.Nat.{◌^◌}
use xeno_reconciliation.Prelude.Int.{ℤ, pos, ◌+ℤ◌, ◌*ₙ◌, leb_ℤ, ltb_ℤ, sum_of}
use xeno_reconciliation.SmartMatcher.Tolerance.{is_within}

-- `{ id, amount }`; the id is a handle that the function only passes on.
pub record Item {ℓ} (A : Type ℓ) : Type ℓ where
  pub id : A
  pub amount : ℤ

module _ {ℓ} {A : Type ℓ} where
  abbrev pub amount_of : Item A → ℤ
  amount_of i = i.amount

  -- `[...items].sort((a, b) => b.amount - a.amount)`, which is stable: an item goes before those
  -- behind it in the list that are no larger.
  pub insert_sorted : Item A → List (Item A) → List (Item A)
  insert_sorted x [] = x ∷ []
  insert_sorted x (y ∷ ys) = if ltb_ℤ x.amount y.amount then y ∷ insert_sorted x ys else x ∷ y ∷ ys

  unfoldable pub sort_descending : List (Item A) → List (Item A)
  unfolding insert_sorted
  sort_descending [] = []
  sort_descending (x ∷ xs) = insert_sorted x (sort_descending xs)

  -- The first loop: takes what still fits, and stops as soon as the sum is near enough.
  unfoldable pub greedy : ℤ → ℕ → ℤ → List (Item A) → List (Item A) → Option (List (Item A))
  greedy target tol sum result [] = none
  greedy target tol sum result (item ∷ sorted) =
      let result' = result ++ item ∷ [] in
      let sum' = sum +ℤ item.amount in
      let taken = greedy target tol sum' result' sorted in
      let passed = greedy target tol sum result sorted in
      if leb_ℤ (100 *ₙ sum') (100 *ₙ target +ℤ pos tol)
      then (if is_within tol sum' target then some result' else taken)
      else passed

  -- The items at the bits of the mask, the first item at the lowest bit.
  unfoldable pub subset_of : ℕ → List (Item A) → List (Item A)
  subset_of mask [] = []
  subset_of mask (item ∷ items) =
      let rest = subset_of (mask / 2) items in if nat_beq (mask % 2) 1 then item ∷ rest else rest

  -- The second loop, over the masks from `mask` on, with the rounds that are left.
  unfoldable pub first_subset : ℤ → ℕ → List (Item A) → ℕ → ℕ → List (Item A)
  unfolding subset_of
  first_subset target tol items zero mask = []
  first_subset target tol items (suc rounds) mask =
      let subset = subset_of mask items in
      let later = first_subset target tol items rounds (mask + 1) in
      if ltb 1 (length subset) && is_within tol (sum_of amount_of subset) target
      then subset
      else later

  unfoldable pub find_combination_sum : List (Item A) → ℤ → ℕ → List (Item A)
  unfolding sort_descending greedy first_subset
  find_combination_sum items target tol =
      let sorted = sort_descending items in
      let limited_items = take 10 sorted in
      let n = length limited_items in
      let subsets = first_subset target tol limited_items (2 ^ n - 1) 1 in
      elim (greedy target tol (pos 0) [] sorted) [ some result ↦ result | none ↦ subsets ]
