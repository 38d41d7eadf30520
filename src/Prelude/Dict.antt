-- ===== src/Prelude/Dict.antt =====
-- JavaScript's `Map`: entries in the order in which their keys were first set, and the loop that
-- sorts items into groups by a key.
pub mod Groups
use mathlib.Core.Path.{◌≡◌, refl}
use mathlib.Core.Bool.{Bool, true, false}
use mathlib.Core.Option.{Option, none, some}
use mathlib.Core.List.{List, [], ◌∷◌, ◌++◌}
use native.Mathlib.Omega.{arith}
use xeno_reconciliation.Prelude.Tests.{HasEq, ◌==◌, if◌then◌else◌}
use xeno_reconciliation.Prelude.Lists.{includes}

abbrev pub Dict {ℓ κ} : Type ℓ → Type κ → Type (ℓ ⊔ κ)
Dict K V = List (K × V)

abbrev pub keys {ℓ κ} : {K : Type ℓ} {V : Type κ} → Dict K V → List K
keys [] = []
keys ((k, v) ∷ d) = k ∷ keys d

abbrev pub values {ℓ κ} : {K : Type ℓ} {V : Type κ} → Dict K V → List V
values [] = []
values ((k, v) ∷ d) = v ∷ values d

-- No key twice.
abbrev pub Distinct {ℓ} : {K : Type ℓ} ⦃e : HasEq K⦄ → List K → Type 0
Distinct [] = Unit
Distinct (k ∷ ks) = (includes ks k ≡ false) × Distinct ks

module _ {ℓ κ} {K : Type ℓ} ⦃e : HasEq K⦄ {V : Type κ} where
  -- `m.get(k)`
  abbrev pub lookup : K → Dict K V → Option V
  lookup k [] = none
  lookup k ((j, v) ∷ d) = if j == k then some v else lookup k d

  -- `m.has(k)`
  abbrev pub has : K → Dict K V → Bool
  has k [] = false
  has k ((j, v) ∷ d) = if j == k then true else has k d

  -- `m.get(k)` whose object is changed in place
  abbrev pub modify : K → (V → V) → Dict K V → Dict K V
  modify k f [] = []
  modify k f ((j, v) ∷ d) = if j == k then (j, f v) ∷ d else (j, v) ∷ modify k f d

  -- `m.set(k, v)`
  abbrev pub insert : K → V → Dict K V → Dict K V
  insert k v [] = (k, v) ∷ []
  insert k v ((j, w) ∷ d) = if j == k then (j, v) ∷ d else (j, w) ∷ insert k v d

  -- `if (!m.has(k)) m.set(k, empty)`, then a change of the value at `k`
  abbrev pub ensure : K → V → Dict K V → Dict K V
  ensure k v d = if has k d then d else d ++ (k, v) ∷ []

  pub has-insert :
      (k j : K) (v : V) (d : Dict K V) → has j (insert k v d) ≡ (if k == j then true else has j d)
  has-insert k j v [] = refl
  has-insert k j v ((i, w) ∷ d) =
      ground (arith, e.same_iff i k, e.same_iff i j, e.same_iff k j, has-insert k j v d)

  pub lookup-insert :
      (k j : K) (v : V) (d : Dict K V)
      → lookup j (insert k v d) ≡ (if k == j then some v else lookup j d)
  lookup-insert k j v [] = refl
  lookup-insert k j v ((i, w) ∷ d) =
      ground (arith, e.same_iff i k, e.same_iff i j, e.same_iff k j, lookup-insert k j v d)

  pub keys-modify : (k : K) (f : V → V) (d : Dict K V) → keys (modify k f d) ≡ keys d
  keys-modify k f [] = refl
  keys-modify k f ((j, v) ∷ d) = ground (arith, keys-modify k f d)

  pub has-keys : (k : K) (d : Dict K V) → has k d ≡ includes (keys d) k
  has-keys k [] = refl
  has-keys k ((j, v) ∷ d) = ground (arith, has-keys k d)

-- The values in the groups of a dictionary of lists.
abbrev pub grouped {ℓ κ} : {K : Type ℓ} {A : Type κ} → Dict K (List A) → List A
grouped [] = []
grouped ((k, g) ∷ d) = g ++ grouped d

module _ {ℓ κ} {K : Type ℓ} ⦃e : HasEq K⦄ {A : Type κ} where
  -- `if (!m.has(k)) m.set(k, []); m.get(k).push(x)`
  unfoldable pub push_group : K → A → Dict K (List A) → Dict K (List A)
  push_group k x d = modify k (λ g. g ++ x ∷ []) (ensure k [] d)

  unfoldable pub group_from : (A → K) → Dict K (List A) → List A → Dict K (List A)
  unfolding push_group
  group_from key d [] = d
  group_from key d (x ∷ xs) = group_from key (push_group (key x) x d) xs

  -- The loop over the items, from the empty map.
  unfoldable pub group_by : (A → K) → List A → Dict K (List A)
  unfolding group_from
  group_by key xs = group_from key [] xs

  abbrev pub group_of : K → Dict K (List A) → List A
  group_of k [] = []
  group_of k ((j, g) ∷ d) = if j == k then g else group_of k d

  group_of-push_group :
      (k j : K) (x : A) (d : Dict K (List A))
      → group_of j (push_group k x d) ≡ (if k == j then group_of j d ++ x ∷ [] else group_of j d)
  unfolding push_group
  group_of-push_group k j x [] = ground (arith, e.same_iff k k, e.same_iff k j)
  group_of-push_group k j x ((i, g) ∷ d) =
      ground (arith, e.same_iff i k, e.same_iff i j, e.same_iff k j, group_of-push_group k j x d)

  has-push_group :
      (k j : K) (x : A) (d : Dict K (List A))
      → has j (push_group k x d) ≡ (if k == j then true else has j d)
  unfolding push_group
  has-push_group k j x [] = ground (arith, e.same_iff k k, e.same_iff k j)
  has-push_group k j x ((i, g) ∷ d) =
      ground (arith, e.same_iff i k, e.same_iff i j, e.same_iff k j, has-push_group k j x d)
