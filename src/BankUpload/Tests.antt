-- ===== src/BankUpload/Tests.antt =====
-- Tests and examples for the upload of bank transactions, src/services/bank-upload/.
use xeno_reconciliation.BankUpload.Repository.{fits_bank_columns}
use xeno_reconciliation.Prelude.Int.{◌-ℤ◌}
use xeno_reconciliation.Prelude.Int.{◌+ℤ◌}
use xeno_reconciliation.Prelude.{
  ◌+◌, ◌≡◌, ◌↔◌, refl, false, none, some, List, [], ◌∷◌, map, any, length, All, nat_eq, list_eq,
  if◌then◌else◌, ltb, ◌&&◌,
}
use xeno_reconciliation.Prelude.Int.{pos}
use xeno_reconciliation.Prelude.Text.{codes, Text}
use xeno_reconciliation.Upload.Records.{Account, Goal, returned}
use xeno_reconciliation.BankUpload.Types.{ParsedBankTransaction, Locale, has_severity_critical}
use xeno_reconciliation.BankUpload.Validator.{validate_transaction, validate_bank_batch}
use xeno_reconciliation.BankUpload.Validator.Accepted.{
  IsAcceptable, validate_transaction-IsAcceptable,
}
use xeno_reconciliation.BankUpload.Validator.Known.{IsKnown, validate_bank_batch-IsKnown}
use xeno_reconciliation.BankUpload.Batches.{BankDatabase, new_bank_batch, get_bank_batch}
use xeno_reconciliation.BankUpload.Processor.{BankSetting, process_bank_file}
use xeno_reconciliation.BankUpload.Processor.Completes.{
  BankCompletes, process_bank_file-BankCompletes,
}

abbrev lower : Text → Text
lower s = map (λ c. if ltb 64 c && ltb c 91 then c + 32 else c) s

abbrev locale : Locale
locale = record {
  end_of_today = pos 1_760_000_000_000;
  ten_years_ago = pos 1_440_000_000_000;
  to_upper_case = λ s. s;
  to_lower_case = lower;
}

abbrev row : ParsedBankTransaction
row = record {
  row_number = 2;
  first_name = codes "A";
  last_name = [];
  account_number = codes "701-1";
  goal_title = codes "G";
  goal_number = codes "701-1a";
  transaction_date = some (pos 1_750_000_000_000);
  transaction_type = codes "DEPOSIT";
  transaction_id = codes "T1";
  total_amount = some (pos 100_000_000);
  xummf_percentage = some (pos 100_000_000);
  xubf_percentage = some (pos 0);
  xudef_percentage = some (pos 0);
  xuref_percentage = some (pos 0);
  xummf_amount = some (pos 100_000_000);
  xubf_amount = some (pos 0);
  xudef_amount = some (pos 0);
  xuref_amount = some (pos 0);
}

-- The second row spells the goal with a capital.
abbrev rows : List ParsedBankTransaction
rows = row ∷ record row { row_number = 3; goal_number = codes "701-1A" } ∷ []

abbrev accounts : List Account
accounts =
    record {
      id = codes "a";
      client_id = codes "c";
      account_number = codes "701-1";
      account_type = codes "PERSONAL";
      account_category = codes "GENERAL";
      sponsor_code = none;
    }
    ∷ []

abbrev goals : List Goal
goals =
    record {
      id = codes "g";
      account_id = codes "a";
      goal_number = codes "701-1a";
      goal_title = codes "G";
      fund_distribution = [];
    }
    ∷ []

abbrev id : Text
id = codes "B"

abbrev database : BankDatabase
database = record {
  tables = record {
    clients = record { id = codes "c"; client_name = codes "A" } ∷ [];
    accounts = accounts;
    goals = goals;
    funds = [];
    fund_transactions = [];
    invalid_transactions = [];
    bank_goal_transactions = [];
    batches = [];
    created = 4;
  };
  bank_batches = new_bank_batch 0 id (codes "f.csv") (codes "u") ∷ [];
}

abbrev setting : BankSetting
setting = record {
  locale = locale;
  started = 1;
  ended = 2;
  parse_bank_file = λ path. returned rows;
}

validate_transaction-IsAcceptable_example :
    (any has_severity_critical (validate_transaction locale row) ≡ false) ↔ IsAcceptable locale row
validate_transaction-IsAcceptable_example = validate_transaction-IsAcceptable locale row

validate_bank_batch-IsKnown_example :
    All (IsKnown accounts goals) (validate_bank_batch locale accounts goals rows).valid_transactions
validate_bank_batch-IsKnown_example = validate_bank_batch-IsKnown locale accounts goals rows

-- A goal that only differs in case from that of a row is not found by the query.
capital_alone_is_invalid :
    length
      (validate_bank_batch locale accounts goals
        (record row { goal_number = codes "701-1A" } ∷ [])).invalid_transactions
    ≡ 1
unfolding validate_bank_batch ◌+ℤ◌ ◌-ℤ◌
capital_alone_is_invalid = refl

process_bank_file-BankCompletes_example :
    BankCompletes id 2 (process_bank_file setting id (codes "f.csv") database)
unfolding get_bank_batch validate_bank_batch fits_bank_columns ◌+ℤ◌ ◌-ℤ◌
process_bank_file-BankCompletes_example =
    process_bank_file-BankCompletes setting id (codes "f.csv") row
      (record row { row_number = 3; goal_number = codes "701-1A" } ∷ []) database
      (new_bank_batch 0 id (codes "f.csv") (codes "u"), refl, tt) refl refl refl
