-- ===== src/Validation/Consistency.antt =====
-- The consistency of the goal transactions that
-- src/services/fund-upload/validators/GoalTransactionValidator.ts asks for.
use mathlib.Core.List.{Memᴰ}
use xeno_reconciliation.Prelude.{
  ◌≡◌, refl, sym, ◌∙◌, ◌↔◌, Bool, true, false, ◌||◌, List, [], ◌∷◌, arith, any, any-append,
  Bool-cases, inl, inr, map, All, All-listed, All-mono, nat_eq, list_eq, option_eq, ◌==◌, ==_iff,
  filter_by, some, none,
}
use xeno_reconciliation.Prelude.Int.{int_eq}
use xeno_reconciliation.Prelude.Text.{Text}
use xeno_reconciliation.Prelude.Dict.{Dict, push_group, group_from, group_by, group_of}
use xeno_reconciliation.Prelude.Dict.Groups.{AllGroups, AllGroups-push_group, group_of-group_by}
use xeno_reconciliation.Codes.{group_by_code}
use xeno_reconciliation.Validation.Types.{
  ParsedFundTransaction, TransactionValidationError, is_critical,
}
use xeno_reconciliation.Validation.Accepted.{critical_last, warning_last, critical_only}
use xeno_reconciliation.Validation.Fields.{is_missing}
use xeno_reconciliation.Validation.GoalGroups.{
  has_several, goal_code, day_of, client_of, account_of, goal_of, tracking_of, source_of,
  validate_group, validate_groups, validate_goal_transaction_groups,
}
use xeno_reconciliation.Validation.Agreement.{has_several-same}

-- The fund transactions of one goal transaction agree in what a goal transaction has once.
pub record Agree (t u : ParsedFundTransaction) : Type 0 where
  pub client : client_of t ≡ client_of u
  pub date : day_of t ≡ day_of u
  pub account : account_of t ≡ account_of u
  pub goal : goal_of t ≡ goal_of u
  pub transaction_id : tracking_of t ≡ tracking_of u
  pub source : source_of t ≡ source_of u

abbrev AllAgree : List ParsedFundTransaction → Type 0
AllAgree ts = (t u : ParsedFundTransaction) → Memᴰ t ts → Memᴰ u ts → Agree t u

validate_group-critical :
    (ts : List ParsedFundTransaction)
    → any is_critical (validate_group ts)
      ≡ has_several (map client_of ts)
        || has_several (map day_of ts)
        || has_several (map account_of ts)
        || has_several (map goal_of ts)
        || has_several (map tracking_of ts)
        || has_several (map source_of ts)
unfolding validate_group
validate_group-critical ts = rw (
  warning_last, warning_last, warning_last, critical_last, critical_last, critical_last,
  critical_last, critical_last, critical_only,
)

validate_group-AllAgree :
    (ts : List ParsedFundTransaction) → (any is_critical (validate_group ts) ≡ false) ↔ AllAgree ts
validate_group-AllAgree ts =
    let same = validate_group-critical ts in
    let clients = has_several-same client_of ts in
    let days = has_several-same day_of ts in
    let accounts = has_several-same account_of ts in
    let goals = has_several-same goal_of ts in
    let ids = has_several-same tracking_of ts in
    let sources = has_several-same source_of ts in
    (
      (λ h t u mt mu. record {
        client = clients.0 (ground (arith, h, same)) t u mt mu;
        date = days.0 (ground (arith, h, same)) t u mt mu;
        account = accounts.0 (ground (arith, h, same)) t u mt mu;
        goal = goals.0 (ground (arith, h, same)) t u mt mu;
        transaction_id = ids.0 (ground (arith, h, same)) t u mt mu;
        source = sources.0 (ground (arith, h, same)) t u mt mu;
      }),
      (λ h. rw (
        same,
        clients.1 (λ t u mt mu. (h t u mt mu).client),
        days.1 (λ t u mt mu. (h t u mt mu).date),
        accounts.1 (λ t u mt mu. (h t u mt mu).account),
        goals.1 (λ t u mt mu. (h t u mt mu).goal),
        ids.1 (λ t u mt mu. (h t u mt mu).transaction_id),
        sources.1 (λ t u mt mu. (h t u mt mu).source),
      )),
    )

abbrev EveryGroup :
    (List ParsedFundTransaction → Type 0) → Dict Text (List ParsedFundTransaction) → Type 0
EveryGroup Q [] = Unit
EveryGroup Q ((k, g) ∷ d) = Q g × EveryGroup Q d

validate_groups-AllAgree :
    (d : Dict Text (List ParsedFundTransaction))
    → (any is_critical (validate_groups d) ≡ false) ↔ EveryGroup AllAgree d
unfolding validate_groups
validate_groups-AllAgree [] = ((λ h. tt), (λ h. refl))
validate_groups-AllAgree ((k, g) ∷ d) =
    let split = any-append is_critical (validate_group g) (validate_groups d) in
    let here = validate_group-AllAgree g in
    let later = validate_groups-AllAgree d in
    (
      (λ h. (here.0 (ground (arith, h, split)), later.0 (ground (arith, h, split)))),
      (λ h. rw (split, here.1 h.0, later.1 h.1)),
    )

group_of-AllAgree :
    (k : Text) (d : Dict Text (List ParsedFundTransaction))
    → EveryGroup AllAgree d
    → AllAgree (group_of k d)
group_of-AllAgree k [] h = λ t u mt mu. elim mt [ ]
group_of-AllAgree k ((j, g) ∷ d) (here, h) = elim (Bool-cases (j == k)) [
  | inl same ↦ rw same here
  | inr other ↦ rw other (group_of-AllAgree k d h)
]

group_from-AllGroups :
    (P : Text → ParsedFundTransaction → Type 0) (d : Dict Text (List ParsedFundTransaction))
    (ts : List ParsedFundTransaction)
    → AllGroups P d
    → All (λ t. P (goal_code t) t) ts
    → AllGroups P (group_from goal_code d ts)
unfolding group_from
group_from-AllGroups P d [] h k = h
group_from-AllGroups P d (t ∷ ts) h (here, k) =
    group_from-AllGroups P (push_group (goal_code t) t d) ts
      (AllGroups-push_group P (goal_code t) t d here h) k

Memᴰ-All {ℓ κ} : {A : Type ℓ} (P : A → Type κ) (xs : List A) (x : A) → All P xs → Memᴰ x xs → P x
Memᴰ-All P [] x h m = elim m [ ]
Memᴰ-All P (y ∷ xs) x (here, h) (Memᴰ.head same) = rw same here
Memᴰ-All P (y ∷ xs) x (here, h) (Memᴰ.tail m) = Memᴰ-All P xs x h m

Memᴰ-filter_by {ℓ} :
    {A : Type ℓ} (p : A → Bool) (xs : List A) (x : A)
    → p x ≡ true
    → Memᴰ x xs
    → Memᴰ x (filter_by p xs)
Memᴰ-filter_by p [] x h m = elim m [ ]
Memᴰ-filter_by p (y ∷ xs) x h (Memᴰ.head same) =
    let passed : p y ≡ true = rw (← same) h in rw passed (Memᴰ.head same)
Memᴰ-filter_by p (y ∷ xs) x h (Memᴰ.tail m) = elim (Bool-cases (p y)) [
  | inl passed ↦ rw passed (Memᴰ.tail (Memᴰ-filter_by p xs x h m))
  | inr failed ↦ rw failed (Memᴰ-filter_by p xs x h m)
]

-- Any two transactions with one code agree.
abbrev pub CodesAgree : List ParsedFundTransaction → Type 0
CodesAgree ts =
    (t u : ParsedFundTransaction) → Memᴰ t ts → Memᴰ u ts → goal_code t ≡ goal_code u → Agree t u

EveryGroup-of_codes :
    (ts : List ParsedFundTransaction) (d : Dict Text (List ParsedFundTransaction))
    → CodesAgree ts
    → AllGroups (λ k t. (goal_code t ≡ k) × Memᴰ t ts) d
    → EveryGroup AllAgree d
EveryGroup-of_codes ts [] h k = tt
EveryGroup-of_codes ts ((j, g) ∷ d) h (here, k) = (
  (λ t u mt mu.
      let (ct, lt) = Memᴰ-All (λ x. (goal_code x ≡ j) × Memᴰ x ts) g t here mt in
      let (cu, lu) = Memᴰ-All (λ x. (goal_code x ≡ j) × Memᴰ x ts) g u here mu in
      h t u lt lu (ct ∙ sym cu)),
  EveryGroup-of_codes ts d h k,
)

groups-CodesAgree :
    (ts : List ParsedFundTransaction)
    → (any is_critical (validate_groups (group_by_code goal_code ts)) ≡ false) ↔ CodesAgree ts
unfolding group_by_code
groups-CodesAgree ts =
    let groups = validate_groups-AllAgree (group_by goal_code ts) in
    (
      (λ h t u mt mu same.
          let agree : AllAgree (filter_by (λ x. goal_code x == goal_code t) ts) =
            rw (← group_of-group_by goal_code (goal_code t) ts)
              (group_of-AllAgree (goal_code t) (group_by goal_code ts) (groups.0 h)) in
          agree t u
            (Memᴰ-filter_by (λ x. goal_code x == goal_code t) ts t
              ((==_iff (goal_code t) (goal_code t)).1 refl) mt)
            (Memᴰ-filter_by (λ x. goal_code x == goal_code t) ts u
              ((==_iff (goal_code u) (goal_code t)).1 (sym same)) mu)),
      (λ h. groups.1 (EveryGroup-of_codes ts (group_by goal_code ts) h (all_grouped ts))),
    )
  where
    all_grouped :
        (ts : List ParsedFundTransaction)
        → AllGroups (λ k t. (goal_code t ≡ k) × Memᴰ t ts) (group_by goal_code ts)
    all_grouped ts =
        group_from-AllGroups (λ k t. (goal_code t ≡ k) × Memᴰ t ts) [] ts tt
          (All-mono (λ t m. (refl, m)) ts (All-listed ts))

-- Where every transaction has a date, the groups of an upload have no critical error exactly where
-- any two of its transactions with one goal transaction code have the same client, day, account,
-- goal, transaction id and source.
pub validate_goal_transaction_groups-CodesAgree :
    (ts : List ParsedFundTransaction) (errors : List TransactionValidationError)
    → validate_goal_transaction_groups ts ≡ some errors
    → (any is_critical errors ≡ false) ↔ CodesAgree ts
unfolding validate_goal_transaction_groups
validate_goal_transaction_groups-CodesAgree ts errors h =
    elim (Bool-cases (any (λ t. is_missing t.transaction_date) ts)) [
      | inl missing ↦ absurd (clash (rw missing at h))
      | inr dated ↦ rw (← some_inj (rw dated at h)) (groups-CodesAgree ts)
    ]
  where
    clash : none ≡ some errors → ⊥
    clash e = cc

    some_inj : {a b : List TransactionValidationError} → some a ≡ some b → a ≡ b
    some_inj e = cc
