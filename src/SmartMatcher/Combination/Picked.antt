-- ===== src/SmartMatcher/Combination/Picked.antt =====
-- Selections of a list, in its order.
use xeno_reconciliation.Prelude.{ℕ, zero, suc, List, [], ◌∷◌, take}

-- The first list is what remains of the second when some items are left out.
pub data Picked {ℓ} {A : Type ℓ} : List A → List A → Type ℓ where
  done : Picked [] []
  keep : {x : A} {r l : List A} → Picked r l → Picked (x ∷ r) (x ∷ l)
  skip : {x : A} {r l : List A} → Picked r l → Picked r (x ∷ l)

pub Picked-nil {ℓ} : {A : Type ℓ} (l : List A) → Picked [] l
Picked-nil [] = done
Picked-nil (x ∷ l) = skip (Picked-nil l)

pub Picked-take {ℓ} : {A : Type ℓ} (n : ℕ) (r l : List A) → Picked r (take n l) → Picked r l
Picked-take zero r [] p = p
Picked-take zero r (x ∷ l) p = skip (Picked-take zero r l (as_nil l p))
  where
    as_nil : (l : List _) → Picked r [] → Picked r (take zero l)
    as_nil l p = p
Picked-take (suc n) r [] p = p
Picked-take (suc n) (x ∷ r) (x' ∷ l) (keep p) = keep (Picked-take n r l p)
Picked-take (suc n) r (x ∷ l) (skip p) = skip (Picked-take n r l p)
