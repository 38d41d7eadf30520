-- ===== src/Store.antt =====
-- The rows of the two transaction tables of prisma/schema.prisma that the reconciliation reads and
-- writes, with the enumerations they use. Amounts are `Decimal(18, 2)` columns and are counted in
-- hundredths; dates are `@db.Date` columns and are counted in days; ids are texts.
use xeno_reconciliation.Prelude.{
  ℕ, ◌≡◌, ◌↔◌, Bool, true, Option, List, [], ◌∷◌, arith, HasEq, nat_eq, nat_beq, if◌then◌else◌,
}
use xeno_reconciliation.Prelude.Int.{ℤ}
use xeno_reconciliation.Prelude.Text.{Text, codes}

pub data TransactionType : Type 0 where
  deposit withdrawal redemption switch dividend transfer : TransactionType

abbrev type_rank : TransactionType → ℕ
type_rank deposit = 0
type_rank withdrawal = 1
type_rank redemption = 2
type_rank switch = 3
type_rank dividend = 4
type_rank transfer = 5

abbrev pub type_beq : TransactionType → TransactionType → Bool
type_beq a b = nat_beq (type_rank a) (type_rank b)

pub type_beq_iff : (a b : TransactionType) → (type_beq a b ≡ true) ↔ (a ≡ b)
type_beq_iff a b = ground arith

instance abbrev pub type_eq : HasEq TransactionType
type_eq = record { same = type_beq; same_iff = type_beq_iff }

-- The enumeration's values as the source interpolates them into texts.
abbrev pub type_name : TransactionType → Text
type_name deposit = codes "DEPOSIT"
type_name withdrawal = codes "WITHDRAWAL"
type_name redemption = codes "REDEMPTION"
type_name switch = codes "SWITCH"
type_name dividend = codes "DIVIDEND"
type_name transfer = codes "TRANSFER"

pub data ReconciliationStatus : Type 0 where
  pending matched variance_detected auto_approved manual_review approved rejected missing_in_fund :
      ReconciliationStatus

pub data ReviewTag : Type 0 where
  duplicate_transaction no_action_needed missing_in_bank missing_in_goal timing_difference
        amount_discrepancy data_entry_error under_investigation reversal_netted :
      ReviewTag

-- `bank_goal_transactions`
pub record BankTransaction : Type 0 where
  pub id : Text
  pub goal_number : Text
  pub transaction_id : Text
  pub transaction_type : TransactionType
  pub transaction_date : ℕ
  pub total_amount : ℤ
  pub reconciliation_status : ReconciliationStatus
  pub matched_goal_transaction_code : Option Text
  pub matched_at : Option ℕ
  pub match_score : Option ℕ
  pub review_tag : Option ReviewTag
  pub review_notes : Option Text
  pub reviewed_by : Option Text
  pub reviewed_at : Option ℕ
  pub updated_at : ℕ

-- `fund_transactions`, with the code of the fund
pub record FundTransaction : Type 0 where
  pub id : Text
  pub goal_transaction_code : Text
  pub transaction_id : Option Text
  pub transaction_type : TransactionType
  pub transaction_date : ℕ
  pub amount : ℤ
  pub fund_code : Text
  pub review_tag : Option ReviewTag
  pub review_notes : Option Text
  pub reviewed_by : Option Text
  pub reviewed_at : Option ℕ

-- `updateMany({ where, data })`: the rows that satisfy the condition are changed, in place.
module _ {ℓ} {A : Type ℓ} where
  unfoldable pub update_many : (A → Bool) → (A → A) → List A → List A
  update_many condition change [] = []
  update_many condition change (row ∷ rows) =
      (if condition row then change row else row) ∷ update_many condition change rows
