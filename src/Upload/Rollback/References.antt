-- ===== src/Upload/Rollback/References.antt =====
-- References between rows, and the loops of a rollback.
use xeno_reconciliation.Prelude.{
  ◌≡◌, refl, sym, ap, ◌∙◌, Bool, true, false, not, ◌&&◌, List, [], ◌∷◌, map, inl, inr, ◌==◌, nat_eq,
  list_eq, all, filter_by, includes, Bool-cases, ==_iff, arith,
}
use xeno_reconciliation.Prelude.Text.{Text}
use xeno_reconciliation.Upload.Records.{ProcessingError, Result, returned, thrown}
use xeno_reconciliation.Upload.Repository.Slices.{Result-cases}
use xeno_reconciliation.Upload.Rollback.{Progress, refers, without, for_each, after_result}

-- Every row refers to a row that is there.
abbrev pub RefersTo {ℓ κ} :
    {A : Type ℓ} {B : Type κ} → (A → Text) → (B → Text) → List A → List B → Type 0
RefersTo ref id xs rows = all (λ x. includes (map id rows) (ref x)) xs ≡ true

includes-without {ℓ} :
    {B : Type ℓ} (id : B → Text) (k n : Text) (rows : List B)
    → includes (map id (without id k rows)) n ≡ includes (map id rows) n && not (n == k)
includes-without id k n [] = refl
includes-without id k n (row ∷ rows) = elim (Bool-cases (id row == k)) [
  | inl gone ↦ rw gone (
      ground (
        arith,
        gone,
        includes-without id k n rows,
        ==_iff (id row) k,
        ==_iff (id row) n,
        ==_iff n k,
      ))
  | inr kept ↦ rw kept (
      ground (
        arith,
        kept,
        includes-without id k n rows,
        ==_iff (id row) k,
        ==_iff (id row) n,
        ==_iff n k,
      ))
]

module _ {ℓ κ} {A : Type ℓ} {B : Type κ} (ref : A → Text) (id : B → Text) where
  -- Nothing refers to the row that is deleted.
  pub RefersTo-without :
      (k : Text) (xs : List A) (rows : List B)
      → refers ref k xs ≡ false
      → RefersTo ref id xs rows
      → RefersTo ref id xs (without id k rows)
  RefersTo-without k [] rows h r = refl
  RefersTo-without k (x ∷ xs) rows h r =
      ground (arith, h, r, includes-without id k (ref x) rows, RefersTo-without k xs rows)

  pub RefersTo-filter_by :
      (p : A → Bool) (xs : List A) (rows : List B)
      → RefersTo ref id xs rows
      → RefersTo ref id (filter_by p xs) rows
  RefersTo-filter_by p [] rows r = refl
  RefersTo-filter_by p (x ∷ xs) rows r = ground (arith, r, RefersTo-filter_by p xs rows)

pub returned_injective :
    (p q : Progress) → ◌≡◌ {A = Result Progress} (returned p) (returned q) → p ≡ q
returned_injective p q h = cc

pub thrown_is_not_returned :
    (e : ProcessingError) (q : Progress) → ◌≡◌ {A = Result Progress} (thrown e) (returned q) → ⊥
thrown_is_not_returned e q h = cc

-- What holds before a loop whose steps keep it holds after.
pub for_each-keeps :
    (P : Progress → Type 0) (step : Text → Progress → Result Progress)
    → ((k : Text) (p q : Progress) → step k p ≡ returned q → P p → P q)
    → (ks : List Text) (p q : Progress) → for_each step ks p ≡ returned q
    → P p
    → P q
unfolding for_each
for_each-keeps P step keeps [] p q h holds =
    let same : ◌≡◌ {A = Result Progress} (returned p) (returned q) = h in
    rw⁻¹ (returned_injective p q same) holds
for_each-keeps P step keeps (k ∷ ks) p q h holds = elim (Result-cases (step k p)) [
  | inl (r, e) ↦
      for_each-keeps P step keeps ks r q
        (sym (ap (λ result. after_result result (for_each step ks)) e) ∙ h) (keeps k p r e holds)
  | inr (error, e) ↦ absurd (
      thrown_is_not_returned error q
        (sym (ap (λ result. after_result result (for_each step ks)) e) ∙ h))
]
