-- ===== src/Validation/Agreement.antt =====
-- Lists whose members have one value, and sets of one element.
use mathlib.Core.List.{Memᴰ}
use xeno_reconciliation.Prelude.{
  ℕ, ◌≤◌, ◌≡◌, refl, sym, ◌∙◌, ◌↔◌, true, false, not, List, [], ◌∷◌, ◌++◌, arith, Bool-cases, inl,
  inr, all, map, nat_eq, list_eq, option_eq, ◌==◌, ==_iff, length, length-append, ltb, HasEq,
}
use xeno_reconciliation.Prelude.Int.{int_eq}
use xeno_reconciliation.Validation.GoalGroups.{set_from, has_several}

module _ {ℓ} {A : Type ℓ} ⦃e : HasEq A⦄ where
  length-set_from : (seen xs : List A) → length seen ≤ length (set_from seen xs)
  unfolding set_from
  length-set_from seen [] = omega arith
  length-set_from seen (x ∷ xs) = ground (
    arith,
    length-set_from seen xs,
    length-set_from (seen ++ x ∷ []) xs,
    length-append seen (x ∷ []),
  )

  set_from-one :
      (x : A) (xs : List A) → ltb 1 (length (set_from (x ∷ []) xs)) ≡ not (all (λ y. x == y) xs)
  unfolding set_from
  set_from-one x [] = refl
  set_from-one x (y ∷ xs) = elim (Bool-cases (x == y)) [
    | inl same ↦ rw same (set_from-one x xs)
    | inr other ↦ rw other (many (length-set_from (x ∷ y ∷ []) xs))
  ]
    where
      many : {n : ℕ} → 2 ≤ n → ltb 1 n ≡ true
      many h = ground arith

  -- A set has at most one element where all elements of the list are the same.
  has_several-cons : (x : A) (xs : List A) → has_several (x ∷ xs) ≡ not (all (λ y. x == y) xs)
  unfolding has_several
  has_several-cons x xs = set_from-one x xs

module _ {ℓ κ} {A : Type ℓ} ⦃e : HasEq A⦄ {B : Type κ} where
  all_same :
      (f : B → A) (x : A) (bs : List B) (b : B)
      → all (λ y. x == y) (map f bs) ≡ true
      → Memᴰ b bs
      → x ≡ f b
  all_same f x [] b h m = elim m [ ]
  all_same f x (c ∷ bs) b h (Memᴰ.head same) = rw same ((==_iff x (f c)).0 (ground arith))
  all_same f x (c ∷ bs) b h (Memᴰ.tail m) = all_same f x bs b (ground arith) m

  all_of_same :
      (f : B → A) (x : A) (bs : List B)
      → ((b : B) → Memᴰ b bs → x ≡ f b)
      → all (λ y. x == y) (map f bs) ≡ true
  all_of_same f x [] h = refl
  all_of_same f x (c ∷ bs) h =
      rw ((==_iff x (f c)).1 (h c (Memᴰ.head refl)), all_of_same f x bs (λ b m. h b (Memᴰ.tail m)))

  pub has_several-same :
      (f : B → A) (bs : List B)
      → (has_several (map f bs) ≡ false) ↔ ((b c : B) → Memᴰ b bs → Memᴰ c bs → f b ≡ f c)
  unfolding has_several
  has_several-same f [] = ((λ h b c m. elim m [ ]), (λ h. refl))
  has_several-same f (d ∷ bs) = (
    (λ h b c mb mc. sym (to_first h b mb) ∙ to_first h c mc),
    (λ h. rw (
      has_several-cons (f d) (map f bs),
      all_of_same f (f d) bs (λ b m. h d b (Memᴰ.head refl) (Memᴰ.tail m)),
    )),
  )
    where
      to_first : has_several (map f (d ∷ bs)) ≡ false → (b : _) → Memᴰ b (d ∷ bs) → f d ≡ f b
      to_first h b (Memᴰ.head same) = rw same
      to_first h b (Memᴰ.tail m) =
          all_same f (f d) bs b (ground (arith, has_several-cons (f d) (map f bs))) m
