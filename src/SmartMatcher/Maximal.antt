-- ===== src/SmartMatcher/Maximal.antt =====
-- The second pass leaves no pair behind that it could have matched.
use mathlib.Core.List.{Memᴰ}
use xeno_reconciliation.Prelude.{
  ◌≤◌, ◌≡◌, refl, inl, inr, Bool, true, false, not, List, [], ◌∷◌, ◌++◌, arith, ==_iff, ==_refl,
  nat_eq, list_eq, any, includes, includes-append, filter_by, Bool-cases,
}
use xeno_reconciliation.Prelude.Text.{Text}
use xeno_reconciliation.Store.{BankTransaction, type_eq}
use xeno_reconciliation.SmartMatcher.Tolerance.{tolerance, is_within, date_window_days}
use xeno_reconciliation.SmartMatcher.Groups.{Group}
use xeno_reconciliation.SmartMatcher.Steps.{push_match}
use xeno_reconciliation.SmartMatcher.Passes.{
  MatchResult, Matching, is_taken, is_open, fits_amount, match_amount, amount_step, amount_pass,
  single_match, amount, amount_confidence, days_apart,
}
use xeno_reconciliation.SmartMatcher.Splits.{
  after_exact, after_amount, unmatched_bank, unmatched_groups,
}

-- What is filtered out fails the test.
missed_by_filter {ℓ} :
    {A : Type ℓ} (p : A → Bool) (xs : List A) (x : A)
    → filter_by p xs ≡ []
    → Memᴰ x xs
    → p x ≡ false
missed_by_filter p [] x e m = elim m [ ]
missed_by_filter p (y ∷ xs) x e (Memᴰ.head same) = elim (Bool-cases (p y)) [
  | inl passed ↦ absurd (full (rw passed at e))
  | inr failed ↦ rw same failed
]
  where
    full : y ∷ filter_by p xs ≡ [] → ⊥
    full e = cc
missed_by_filter p (y ∷ xs) x e (Memᴰ.tail m) = missed_by_filter p xs x (ground arith) m

kept_by_filter {ℓ} :
    {A : Type ℓ} (p : A → Bool) (xs : List A) (x : A)
    → p x ≡ true
    → Memᴰ x xs
    → Memᴰ x (filter_by p xs)
kept_by_filter p [] x h m = elim m [ ]
kept_by_filter p (y ∷ xs) x h (Memᴰ.head same) =
    let passed : p y ≡ true = rw (← same) h in rw passed (Memᴰ.head same)
kept_by_filter p (y ∷ xs) x h (Memᴰ.tail m) = elim (Bool-cases (p y)) [
  | inl passed ↦ rw passed (Memᴰ.tail (kept_by_filter p xs x h m))
  | inr failed ↦ rw failed (kept_by_filter p xs x h m)
]

-- A larger set: more is taken, and less is open.
abbrev Within : Matching → Matching → Type 0
Within s t =
    ((b : BankTransaction) → is_taken t b ≡ false → is_taken s b ≡ false)
    × ((g : Group) → is_open t g ≡ true → is_open s g ≡ true)

any-includes-append :
    (xs ys ids : List Text) → any (includes (xs ++ ys)) ids ≡ false → any (includes xs) ids ≡ false
any-includes-append xs ys [] h = refl
any-includes-append xs ys (i ∷ ids) h =
    ground (arith, includes-append xs ys i, any-includes-append xs ys ids)

push_match-Within : (m : MatchResult) (s : Matching) → Within s (push_match m s)
push_match-Within m s = (
  λ b h. ground (arith, includes-append s.bank_ids m.bank_ids b.id),
  λ g h. ground (arith, any-includes-append s.fund_ids m.fund_ids g.ids),
)

match_amount-Within :
    (b : BankTransaction) (found : List Group) (s : Matching) → Within s (match_amount b found s)
match_amount-Within b [] s = ((λ b h. h), (λ g h. h))
match_amount-Within b (g ∷ found) s =
    push_match-Within (single_match amount (amount_confidence b g) b g) s

amount_step-Within :
    (gs : List Group) (b : BankTransaction) (s : Matching) → Within s (amount_step gs b s)
unfolding amount_step
amount_step-Within gs b s = elim (Bool-cases (is_taken s b)) [
  | inl taken ↦ rw taken ((λ b h. h), (λ g h. h))
  | inr untaken ↦ rw untaken (match_amount-Within b (filter_by (fits_amount s b) gs) s)
]

amount_pass-Within :
    (gs : List Group) (bs : List BankTransaction) (s : Matching) → Within s (amount_pass gs bs s)
unfolding amount_pass
amount_pass-Within gs [] s = ((λ b h. h), (λ g h. h))
amount_pass-Within gs (b ∷ bs) s =
    let (taken, free) = amount_step-Within gs b s in
    let (taken', free') = amount_pass-Within gs bs (amount_step gs b s) in
    ((λ c h. taken c (taken' c h)), (λ g h. free g (free' g h)))

pushed_is_taken :
    (b : BankTransaction) (g : Group) (s : Matching)
    → is_taken (push_match (single_match amount (amount_confidence b g) b g) s) b ≡ false
    → ⊥
pushed_is_taken b g s h = ground (arith, includes-append s.bank_ids (b.id ∷ []) b.id, ==_refl b.id)

-- What did not fit does not fit later.
fits_shrinks :
    (s t : Matching) (b : BankTransaction) (g : Group)
    → (is_open t g ≡ true → is_open s g ≡ true)
    → fits_amount s b g ≡ false
    → fits_amount t b g ≡ false
fits_shrinks s t b g shrinks h = elim (Bool-cases (is_open t g)) [
  | inl free ↦ let before = shrinks free in ground (arith, before, free)
  | inr matched ↦ ground (arith, matched)
]

-- A bank transaction that its own step leaves untaken had no group to take.
amount_step-maximal :
    (gs : List Group) (b : BankTransaction) (s : Matching) (g : Group)
    → is_taken (amount_step gs b s) b ≡ false
    → Memᴰ g gs
    → fits_amount s b g ≡ false
unfolding amount_step
amount_step-maximal gs b s g h m = elim (Bool-cases (is_taken s b)) [
  | inl taken ↦ absurd (clash taken (rw taken at h))
  | inr untaken ↦ choice (filter_by (fits_amount s b) gs) refl (rw untaken at h)
]
  where
    clash : {c : Bool} → c ≡ true → c ≡ false → ⊥
    clash p q = cc

    choice :
        (found : List Group)
        → filter_by (fits_amount s b) gs ≡ found
        → is_taken (match_amount b (filter_by (fits_amount s b) gs) s) b ≡ false
        → fits_amount s b g ≡ false
    choice [] e k = missed_by_filter (fits_amount s b) gs g e m
    choice (g' ∷ found) e k = absurd (pushed_is_taken b g' s (rw e at k))

amount_pass-maximal :
    (gs : List Group) (bs : List BankTransaction) (s : Matching) (b : BankTransaction) (g : Group)
    → Memᴰ b bs
    → Memᴰ g gs
    → is_taken (amount_pass gs bs s) b ≡ false
    → fits_amount (amount_pass gs bs s) b g ≡ false
unfolding amount_pass
amount_pass-maximal gs [] s b g mb mg h = elim mb [ ]
amount_pass-maximal gs (c ∷ bs) s b g (Memᴰ.head same) mg h =
    let t = amount_step gs c s in
    let (taken, free) = amount_pass-Within gs bs t in
    let untaken : is_taken (amount_step gs c s) c ≡ false = taken c (rw same at h) in
    let (_, free_before) = amount_step-Within gs c s in
    rw same (
      fits_shrinks s (amount_pass gs bs t) c g (λ k. free_before g (free g k))
        (amount_step-maximal gs c s g untaken mg))
amount_pass-maximal gs (c ∷ bs) s b g (Memᴰ.tail mb) mg h =
    amount_pass-maximal gs bs (amount_step gs c s) b g mb mg h

-- After the second pass no bank transaction that is not matched and no goal transaction that is
-- open are of the same type, at most 30 days apart and within the tolerance of one another.
pub after_amount-maximal :
    (banks : List BankTransaction) (groups : List Group) (b : BankTransaction) (g : Group)
    → Memᴰ b banks
    → Memᴰ g groups
    → is_taken (after_amount banks groups) b ≡ false
    → is_open (after_amount banks groups) g ≡ true
    → g.type ≡ b.transaction_type
    → days_apart b.transaction_date g.date ≤ date_window_days
    → is_within (tolerance g.total) b.total_amount g.total ≡ false
unfolding after_amount
after_amount-maximal banks groups b g mb mg untaken free type days =
    let s = after_exact banks groups in
    let gs = unmatched_groups s groups in
    let bs = unmatched_bank s banks in
    let (taken_before, free_before) = amount_pass-Within gs bs s in
    let listed_bank : Memᴰ b bs = kept_by_filter _ banks b (negate (taken_before b untaken)) mb in
    let listed_group : Memᴰ g gs = kept_by_filter _ groups g (free_before g free) mg in
    let unfit = amount_pass-maximal gs bs s b g listed_bank listed_group untaken in
    ground (arith, unfit, free, (==_iff g.type b.transaction_type).1 type)
  where
    negate : {c : Bool} → c ≡ false → not c ≡ true
    negate p = rw p
