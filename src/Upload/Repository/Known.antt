-- ===== src/Upload/Repository/Known.antt =====
-- Which transactions are resolved: those whose client, account, goal and fund have rows.
use xeno_reconciliation.Prelude.{ap}
use xeno_reconciliation.Prelude.{ℕ}
use xeno_reconciliation.Upload.Repository.{checked, fits_columns, fits_row}
use xeno_reconciliation.Prelude.{
  ℕ, ◌≡◌, refl, ◌∙◌, Bool, true, false, ◌&&◌, ◌||◌, Option, none, some, List, [], ◌∷◌, map, nat_eq,
  list_eq, includes, all, Option-cases, arith,
}
use xeno_reconciliation.Prelude.Text.{Text}
use xeno_reconciliation.Prelude.Dict.{Dict, lookup, insert, lookup-insert}
use xeno_reconciliation.Validation.Types.{ParsedFundTransaction}
use xeno_reconciliation.Upload.Records.{Database, Result, returned, thrown}
use xeno_reconciliation.Upload.Detector.{name_of, number_of, goal_number}
use xeno_reconciliation.Upload.Repository.{
  map_from, References, client_id, account_id, goal_id, fund_id, fund_code, with_ids, resolve_one,
  resolve_all, Resolved,
}
use xeno_reconciliation.Upload.Repository.Resolve.{all_references}
use xeno_reconciliation.Upload.Repository.Slices.{Result-cases}
use xeno_reconciliation.Prelude.{inl, inr}

abbrev pub is_there {ℓ} : {A : Type ℓ} → Option A → Bool
is_there none = false
is_there (some a) = true

abbrev pub returns {ℓ} : {A : Type ℓ} → Result A → Bool
returns (returned a) = true
returns (thrown e) = false

-- The client, the account, the goal and the fund of a transaction have rows.
abbrev pub has_entities : Database → ParsedFundTransaction → Bool
has_entities db t =
    includes (map name_of db.clients) t.client_name
    && includes (map number_of db.accounts) t.account_number
    && includes (map goal_number db.goals) t.goal_number

abbrev pub has_fund : Database → ParsedFundTransaction → Bool
has_fund db t = includes (map fund_code db.funds) t.fund_code

is_there-map_from {ℓ} :
    {A : Type ℓ} (name id : A → Text) (n : Text) (d : Dict Text Text) (rows : List A)
    → is_there (lookup n (map_from name id d rows))
      ≡ is_there (lookup n d) || includes (map name rows) n
unfolding map_from
is_there-map_from name id n d [] = ground (arith)
is_there-map_from name id n d (row ∷ rows) =
    is_there-map_from name id n (insert (name row) (id row) d) rows
    ∙ ground (arith, lookup-insert (name row) n (id row) d)

is_there-with_ids :
    (t : ParsedFundTransaction) (c a g f : Option Text)
    → is_there (with_ids t c a g f) ≡ is_there c && is_there a && is_there g && is_there f
is_there-with_ids t c a g f = ground (arith)

is_there-resolve_one :
    (db : Database) (t : ParsedFundTransaction)
    → is_there (resolve_one (all_references db) t) ≡ has_entities db t && has_fund db t
unfolding resolve_one
is_there-resolve_one db t =
    is_there-with_ids t _ _ _ _
    ∙ ground (
      arith,
      is_there-map_from name_of client_id t.client_name [] db.clients,
      is_there-map_from number_of account_id t.account_number [] db.accounts,
      is_there-map_from goal_number goal_id t.goal_number [] db.goals,
      is_there-map_from fund_code fund_id t.fund_code [] db.funds,
    )

returns-resolve_all :
    (refs : References) (ts : List ParsedFundTransaction)
    → returns (resolve_all refs ts) ≡ all (λ t. is_there (resolve_one refs t)) ts
unfolding resolve_all
returns-resolve_all refs [] = refl
returns-resolve_all refs (t ∷ ts) = ground (arith, returns-resolve_all refs ts)

all-same {ℓ} :
    {A : Type ℓ} (p q : A → Bool) → ((x : A) → p x ≡ q x) → (xs : List A) → all p xs ≡ all q xs
all-same p q same [] = refl
all-same p q same (x ∷ xs) = ground (arith, same x, all-same p q same xs)

-- The transactions are resolved exactly where each has its entities and its fund.
pub returns-resolve_known :
    (db : Database) (ts : List ParsedFundTransaction)
    → returns (resolve_all (all_references db) ts)
      ≡ all (λ t. has_entities db t && has_fund db t) ts
returns-resolve_known db ts =
    returns-resolve_all (all_references db) ts ∙ all-same _ _ (is_there-resolve_one db) ts

abbrev pub resolved_transaction : Resolved → ParsedFundTransaction
resolved_transaction r = r.transaction

with_ids-transaction :
    (t : ParsedFundTransaction) (c a g f : Option Text) (r : Resolved)
    → with_ids t c a g f ≡ some r
    → r.transaction ≡ t
with_ids-transaction t c a g f r h = ground (arith, h)

resolve_one-transaction :
    (refs : References) (t : ParsedFundTransaction) (r : Resolved)
    → resolve_one refs t ≡ some r
    → r.transaction ≡ t
unfolding resolve_one
resolve_one-transaction refs t r h = with_ids-transaction t _ _ _ _ r h

-- What is resolved are the transactions, in their order.
pub resolve_all-transactions :
    (refs : References) (ts : List ParsedFundTransaction) (rs : List Resolved)
    → resolve_all refs ts ≡ returned rs
    → map resolved_transaction rs ≡ ts
unfolding resolve_all
resolve_all-transactions refs [] rs h = ground (arith, h)
resolve_all-transactions refs (t ∷ ts) rs h = elim (Option-cases (resolve_one refs t)) [
  | inl e ↦ ground (arith, e, h)
  | inr (r, e) ↦ elim (Result-cases (resolve_all refs ts)) [
    | inl (qs, k) ↦
        let same : returned (r ∷ qs) ≡ returned rs = ground (arith, e, k, h) in
        ground
          (arith, same, resolve_one-transaction refs t r e, resolve_all-transactions refs ts qs k)
    | inr (error, k) ↦ ground (arith, e, k, h)
  ]
]

all_fits-map :
    (rs : List Resolved) → all fits_row rs ≡ all fits_columns (map resolved_transaction rs)
all_fits-map [] = refl
all_fits-map (r ∷ rs) = ground (arith, all_fits-map rs)

pub returns-checked :
    (refs : References) (ts : List ParsedFundTransaction)
    → returns (checked (resolve_all refs ts)) ≡ returns (resolve_all refs ts) && all fits_columns ts
returns-checked refs ts = elim (Result-cases (resolve_all refs ts)) [
  | inr (error, e) ↦ rw e refl
  | inl (rs, e) ↦
      let same : all fits_row rs ≡ all fits_columns ts =
        all_fits-map rs ∙ ap (all fits_columns) (resolve_all-transactions refs ts rs e) in
      rw e (ground (arith, same))
]
