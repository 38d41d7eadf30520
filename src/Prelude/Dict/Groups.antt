-- ===== src/Prelude/Dict/Groups.antt =====
-- The laws of the grouping loop: a group holds the items of its key in their order, every item
-- stands in exactly one group, and no key is listed twice.
use mathlib.Core.Path.{◌≡◌, refl, sym, ◌∙◌}
use mathlib.Core.Bool.{false}
use mathlib.Core.Logic.{inl, inr, ◌≢◌}
use mathlib.Core.List.{List, [], ◌∷◌, ◌++◌, Perm, perm_middle, append_assoc, append-nil}
use mathlib.Core.List.Perm
use native.Mathlib.Omega.{arith}
use xeno_reconciliation.Prelude.Tests.{HasEq, ◌==◌, if◌then◌else◌, Bool-cases}
use xeno_reconciliation.Prelude.Lists.{filter_by, includes, includes-append, All, All-append}
use xeno_reconciliation.Prelude.Dict.{
  Dict, keys, Distinct, has, ensure, grouped, push_group, group_from, group_by, group_of,
  group_of-push_group, has-keys, keys-modify,
}

module _ {ℓ} {K : Type ℓ} ⦃e : HasEq K⦄ where
  Distinct-snoc :
      (ks : List K) (k : K) → Distinct ks → includes ks k ≡ false → Distinct (ks ++ k ∷ [])
  Distinct-snoc [] k h n = (refl, tt)
  Distinct-snoc (j ∷ ks) k (h, hs) n = (
    ground (arith, includes-append ks (k ∷ []) j, e.same_iff j k, e.same_iff k j),
    Distinct-snoc ks k hs (ground arith),
  )

module _ {ℓ κ} {K : Type ℓ} ⦃e : HasEq K⦄ {A : Type κ} where
  pub push_group-nil : (k : K) (x : A) → push_group k x [] ≡ (k, x ∷ []) ∷ []
  unfolding push_group
  push_group-nil k x = ground (arith, e.same_iff k k)

  pub push_group-cons :
      (k i : K) (x : A) (g : List A) (d : Dict K (List A))
      → push_group k x ((i, g) ∷ d)
        ≡ (if i == k then (i, g ++ x ∷ []) ∷ d else (i, g) ∷ push_group k x d)
  unfolding push_group
  push_group-cons k i x g d = ground arith

  grouped-push_group :
      (k : K) (x : A) (d : Dict K (List A)) → Perm (grouped (push_group k x d)) (x ∷ grouped d)
  grouped-push_group k x [] = rw (push_group-nil k x) (Perm.refl (x ∷ []))
  grouped-push_group k x ((i, g) ∷ d) = elim (Bool-cases (i == k)) [
    | inl same ↦
        rw (push_group-cons k i x g d, same)
          (rw (append_assoc g (x ∷ []) (grouped d)) (perm_middle g (grouped d)))
    | inr other ↦
        rw (push_group-cons k i x g d, other)
          (Perm.trans (Perm.append (Perm.refl g) (grouped-push_group k x d))
            (perm_middle g (grouped d)))
  ]

  grouped-group_from :
      (key : A → K) (d : Dict K (List A)) (xs : List A)
      → Perm (grouped (group_from key d xs)) (grouped d ++ xs)
  unfolding group_from
  grouped-group_from key d [] = rw (append-nil (grouped d)) (Perm.refl (grouped d))
  grouped-group_from key d (x ∷ xs) =
      Perm.trans (grouped-group_from key (push_group (key x) x d) xs) (
        Perm.trans (Perm.append_right xs (grouped-push_group (key x) x d))
          (Perm.symm (perm_middle (grouped d) xs)))

  -- The groups together hold the items, each as often as the list does.
  pub grouped-group_by : (key : A → K) (xs : List A) → Perm (grouped (group_by key xs)) xs
  unfolding group_by
  grouped-group_by key xs = grouped-group_from key [] xs

  group_of-group_from :
      (key : A → K) (k : K) (d : Dict K (List A)) (xs : List A)
      → group_of k (group_from key d xs) ≡ group_of k d ++ filter_by (λ x. key x == k) xs
  unfolding group_from
  group_of-group_from key k d [] = rw (append-nil (group_of k d))
  group_of-group_from key k d (x ∷ xs) = elim (Bool-cases (key x == k)) [
    | inl same ↦ rw (
      group_of-group_from key k (push_group (key x) x d) xs,
      group_of-push_group (key x) k x d,
      same,
      append_assoc (group_of k d) (x ∷ []) (filter_by (λ x. key x == k) xs),
    )
    | inr other ↦ rw (
      group_of-group_from key k (push_group (key x) x d) xs,
      group_of-push_group (key x) k x d,
      other,
    )
  ]

  -- The group of a key holds the items of that key, in their order.
  pub group_of-group_by :
      (key : A → K) (k : K) (xs : List A)
      → group_of k (group_by key xs) ≡ filter_by (λ x. key x == k) xs
  unfolding group_by
  group_of-group_by key k xs = group_of-group_from key k [] xs

  keys-append :
      (d : Dict K (List A)) (k : K) (g : List A) → keys (d ++ (k, g) ∷ []) ≡ keys d ++ k ∷ []
  keys-append [] k g = refl
  keys-append ((j, h) ∷ d) k g = rw (keys-append d k g)

  Distinct-push_group :
      (k : K) (x : A) (d : Dict K (List A)) → Distinct (keys d) → Distinct (keys (push_group k x d))
  unfolding push_group
  Distinct-push_group k x d h = elim (Bool-cases (has k d)) [
    | inl old ↦ rw (keys-modify k (λ g. g ++ x ∷ []) (ensure k [] d), old) h
    | inr new ↦
        rw (keys-modify k (λ g. g ++ x ∷ []) (ensure k [] d), new, keys-append d k [])
          (Distinct-snoc (keys d) k h (sym (has-keys k d) ∙ new))
  ]

  Distinct-group_from :
      (key : A → K) (d : Dict K (List A)) (xs : List A)
      → Distinct (keys d)
      → Distinct (keys (group_from key d xs))
  unfolding group_from
  Distinct-group_from key d [] h = h
  Distinct-group_from key d (x ∷ xs) h =
      Distinct-group_from key (push_group (key x) x d) xs (Distinct-push_group (key x) x d h)

  pub Distinct-group_by : (key : A → K) (xs : List A) → Distinct (keys (group_by key xs))
  unfolding group_by
  Distinct-group_by key xs = Distinct-group_from key [] xs tt

  -- A group holds something, and all that it holds has its key.
  abbrev pub IsGroup : (A → K) → K × List A → Type (ℓ ⊔ κ)
  IsGroup key (k, g) = (g ≢ []) × All (λ x. key x ≡ k) g

  All-push_group :
      (key : A → K) (k : K) (x : A) (d : Dict K (List A))
      → key x ≡ k
      → All (IsGroup key) d
      → All (IsGroup key) (push_group k x d)
  All-push_group key k x [] same h = rw (push_group-nil k x) (((λ p. cc), (same, tt)), tt)
  All-push_group key k x ((i, g) ∷ d) same ((full, kept), h) = elim (Bool-cases (i == k)) [
    | inl found ↦
        rw (push_group-cons k i x g d, found)
          (
            (
              (λ p. nonempty g p),
              All-append (λ y. key y ≡ i) g (x ∷ []) kept
                  (same ∙ sym ((e.same_iff i k).0 found), tt),
            ),
            h,
          )
    | inr other ↦
        rw (push_group-cons k i x g d, other) ((full, kept), All-push_group key k x d same h)
  ]
    where
      nonempty : (g : List A) → g ++ x ∷ [] ≢ []
      nonempty [] p = cc
      nonempty (y ∷ g) p = cc

  All-group_from :
      (key : A → K) (d : Dict K (List A)) (xs : List A)
      → All (IsGroup key) d
      → All (IsGroup key) (group_from key d xs)
  unfolding group_from
  All-group_from key d [] h = h
  All-group_from key d (x ∷ xs) h =
      All-group_from key (push_group (key x) x d) xs (All-push_group key (key x) x d refl h)

  pub All-group_by : (key : A → K) (xs : List A) → All (IsGroup key) (group_by key xs)
  unfolding group_by
  All-group_by key xs = All-group_from key [] xs tt

-- A property of keys and items is kept when an item that has it is added.
module _ {ℓ κ ι} {K : Type ℓ} ⦃e : HasEq K⦄ {A : Type κ} (P : K → A → Type ι) where
  abbrev pub AllGroups : Dict K (List A) → Type ι
  AllGroups d = All (λ (entry : K × List A). All (P entry.0) entry.1) d

  pub AllGroups-push_group :
      (k : K) (x : A) (d : Dict K (List A)) → P k x → AllGroups d → AllGroups (push_group k x d)
  AllGroups-push_group k x [] p h = rw (push_group-nil k x) ((p, tt), tt)
  AllGroups-push_group k x ((i, g) ∷ d) p (here, h) = elim (Bool-cases (i == k)) [
    | inl found ↦
        rw (push_group-cons k i x g d, found)
          (All-append (P i) g (x ∷ []) here (rw ((e.same_iff i k).0 found) p, tt), h)
    | inr other ↦ rw (push_group-cons k i x g d, other) (here, AllGroups-push_group k x d p h)
  ]
