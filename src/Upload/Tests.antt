-- ===== src/Upload/Tests.antt =====
-- Tests and examples for the upload of fund transactions, src/services/fund-upload/.
use xeno_reconciliation.Upload.Detector.{detect_new_entities}
use xeno_reconciliation.Prelude.{Bool}
use xeno_reconciliation.Upload.Routes.{Job}
use xeno_reconciliation.Validation.Fields.{validate}
use xeno_reconciliation.Prelude.Int.{◌-ℤ◌}
use xeno_reconciliation.Prelude.{
  ◌+◌, ◌-◌, ◌*◌, ◌≡◌, refl, true, false, not, none, some, List, [], ◌∷◌, all, arith, filter_by,
  nat_eq, list_eq, ◌==◌,
}
use xeno_reconciliation.Prelude.Int.{pos, sum_of}
use xeno_reconciliation.Prelude.Text.{codes, Text}
use xeno_reconciliation.Validation.Types.{ParsedFundTransaction, ValidationConfig, Clock}
use xeno_reconciliation.Validation.Fields.{is_deposit}
use xeno_reconciliation.Validation.GoalGroups.{amount_of}
use xeno_reconciliation.Upload.Records.{
  waiting_for_approval, completed, approval_pending, approved, Database, UploadBatch, returned,
}
use xeno_reconciliation.Upload.Batches.{new_batch, get_batch}
use xeno_reconciliation.Upload.Detector.{detect_new_entities, has_new_entities}
use xeno_reconciliation.Upload.Detector.Laws.{has_new_entities-has_entities}
use xeno_reconciliation.Upload.Creator.{create_approved_entities, fits_account}
use xeno_reconciliation.Upload.Creator.Complete.{Grown, create_approved_entities-has_entities}
use xeno_reconciliation.Upload.Repository.{fits_columns, save_transactions}
use xeno_reconciliation.Upload.Repository.Slices.{
  Agrees, save_at_once, save_transactions-save_at_once,
}
use xeno_reconciliation.Upload.Repository.Known.{has_entities}
use xeno_reconciliation.Upload.Summary.{calculate_financial_summary, units_of}
use xeno_reconciliation.Upload.Summary.Totals.{
  entry_at, sums_of, is_paid_out, calculate_financial_summary_lem,
}
use xeno_reconciliation.Upload.Processor.{Setting, process_file, resume_processing, keeps_details}
use xeno_reconciliation.Upload.Processor.Ends.{Settled, process_file-Settled}
use xeno_reconciliation.Upload.Processor.AllOrNothing.{process_file-AllOrNothing}
use xeno_reconciliation.Upload.Processor.Untouched.{AllOrNothing}
use xeno_reconciliation.Upload.Processor.Resume.{Completes, resume_processing-Completes}
use xeno_reconciliation.Upload.Routes.{approve_entities, run_job, resume_job}
use xeno_reconciliation.Upload.Routes.Approval.{approve_entities-resume}
use xeno_reconciliation.Upload.Rollback.{rollback_batch, Progress, is_busy}
use xeno_reconciliation.Upload.Rollback.Integrity.{Integrity}
use xeno_reconciliation.Upload.Rollback.Safe.{RolledBack, rollback_batch-RolledBack}

abbrev config : ValidationConfig
config = record {
  date_range_years_past = 10;
  date_range_years_future = 0;
  amount_max = 1_000_000_000_000_000;
  unit_trust_tolerance = 10_000;
  fund_distribution_tolerance = 10_000;
}

abbrev clock : Clock
clock = record {
  midnight = pos 1_760_000_000_000;
  years_ago = λ years. pos (1_760_000_000_000 - years * 31_536_000_000);
  years_ahead = λ years. pos (1_760_000_000_000 + years * 31_536_000_000);
}

abbrev row : ParsedFundTransaction
row = record {
  fund_transaction_id = codes "F1";
  goal_transaction_code = codes "C1";
  transaction_id = codes "T1";
  source = some (codes "BANK");
  transaction_date = some (pos 1_750_000_000_000);
  client_name = codes "A";
  fund_code = codes "XUMMF";
  amount = some (pos 1_000_000);
  units = some (pos 1_000_000);
  transaction_type = codes "DEPOSIT";
  bid_price = some (pos 1_000_000);
  offer_price = some (pos 1_000_000);
  mid_price = some (pos 1_000_000);
  goal_title = codes "G";
  account_type = codes "PERSONAL";
  account_category = codes "GENERAL";
  sponsor_code = none;
  date_created = some (pos 1_750_000_000_000);
  goal_number = codes "701-123456789a";
  account_number = codes "701-123456789";
  row_number = 2;
}

abbrev rows : List ParsedFundTransaction
rows =
    row
    ∷ record row {
      fund_transaction_id = codes "F2";
      transaction_type = codes "WITHDRAWAL";
      row_number = 3;
    }
    ∷ []

abbrev path : Text
path = codes "f.csv"

abbrev setting : Setting
setting = record {
  validation = config;
  batch_insert_size = 1;
  clock = clock;
  started = 1;
  ended = 2;
  new_id = λ n. n ∷ [];
  parse_file = λ file. returned rows;
}

abbrev takes_all : Job → Bool
takes_all job = true

abbrev id : Text
id = codes "B"

abbrev batch : UploadBatch
batch = new_batch 0 id path (codes "u")

-- One fund and one batch.
abbrev empty_database : Database
empty_database = record {
  clients = [];
  accounts = [];
  goals = [];
  funds = record { id = codes "X"; fund_code = codes "XUMMF" } ∷ [];
  fund_transactions = [];
  invalid_transactions = [];
  bank_goal_transactions = [];
  batches = batch ∷ [];
  created = 1;
}

abbrev waiting_batch : UploadBatch
waiting_batch = record batch {
  processing_status = waiting_for_approval;
  new_entities_status = some approval_pending;
  new_entities_report = some (detect_new_entities empty_database rows);
}

abbrev waiting_database : Database
waiting_database = record empty_database { batches = waiting_batch ∷ [] }

abbrev approved_database : Database
approved_database = record empty_database {
  batches = record waiting_batch { new_entities_status = some approved } ∷ [];
}

abbrev grown_waiting : Grown empty_database waiting_database
grown_waiting = record { clients = λ n h. h; accounts = λ n h. h; goals = λ n h. h }

abbrev grown_approved : Grown empty_database approved_database
grown_approved = record { clients = λ n h. h; accounts = λ n h. h; goals = λ n h. h }

-- With the client, the account and the goal of the rows.
abbrev full_database : Database
full_database = record empty_database {
  clients = record { id = codes "c"; client_name = codes "A" } ∷ [];
  accounts =
      record {
        id = codes "a";
        client_id = codes "c";
        account_number = codes "701-123456789";
        account_type = codes "PERSONAL";
        account_category = codes "GENERAL";
        sponsor_code = none;
      }
      ∷ [];
  goals =
      record {
        id = codes "g";
        account_id = codes "a";
        goal_number = codes "701-123456789a";
        goal_title = codes "G";
        fund_distribution = [];
      }
      ∷ [];
}

process_file-Settled_example : Settled id (process_file setting id path full_database)
unfolding keeps_details get_batch
process_file-Settled_example =
    process_file-Settled setting id (omega arith) path full_database (λ e h. cc) (batch, refl, tt)

process_file-AllOrNothing_example :
    AllOrNothing id rows [] (process_file setting id path full_database)
unfolding get_batch
process_file-AllOrNothing_example =
    process_file-AllOrNothing setting id path full_database (omega arith) (batch, refl, tt)

resume_processing-Completes_example :
    Completes id rows [] (resume_processing setting id path approved_database)
unfolding validate ◌-ℤ◌ get_batch fits_columns fits_account detect_new_entities
resume_processing-Completes_example =
    resume_processing-Completes setting id (omega arith) rows path empty_database approved_database
      grown_approved refl refl refl refl refl
      (record waiting_batch { new_entities_status = some approved }, refl, (refl, refl))

approve_entities-resume_example :
    let answer = approve_entities takes_all 3 id (codes "approved") (codes "u") waiting_database in
    (answer.added ≡ resume_job waiting_batch ∷ [])
    × Completes id rows [] (run_job setting (resume_job waiting_batch) answer.database)
unfolding get_batch validate ◌-ℤ◌ fits_columns detect_new_entities fits_account
approve_entities-resume_example =
    approve_entities-resume setting takes_all 3 id (codes "u") empty_database waiting_database
      waiting_batch rows (omega arith) refl refl refl grown_waiting refl refl refl refl refl refl

save_transactions-save_at_once_example :
    Agrees (save_at_once id rows full_database) (save_transactions 1 id rows full_database)
save_transactions-save_at_once_example =
    save_transactions-save_at_once 1 id rows full_database (omega arith)

has_new_entities-has_entities_example :
    has_new_entities (detect_new_entities empty_database rows)
    ≡ not (all (has_entities empty_database) rows)
has_new_entities-has_entities_example = has_new_entities-has_entities empty_database rows

create_approved_entities-has_entities_example :
    let run =
      create_approved_entities setting.new_id
        (detect_new_entities empty_database rows)
        waiting_database in
    (run.error ≡ none) × (all (has_entities run.database) rows ≡ true)
unfolding fits_account detect_new_entities
create_approved_entities-has_entities_example =
    create_approved_entities-has_entities setting.new_id empty_database waiting_database rows
      grown_waiting refl

calculate_financial_summary_lem_example :
    let s = calculate_financial_summary rows in
    (s.total_deposit_amount ≡ sum_of amount_of (filter_by is_deposit rows))
    × (s.total_units_issued ≡ sum_of units_of (filter_by is_deposit rows))
    × (s.total_withdrawal_amount ≡ sum_of amount_of (filter_by is_paid_out rows))
    × (s.total_units_redeemed ≡ sum_of units_of (filter_by is_paid_out rows))
    × ((code : Text)
        → entry_at code s.fund_breakdown ≡ sums_of (filter_by (λ t. t.fund_code == code) rows))
calculate_financial_summary_lem_example = calculate_financial_summary_lem rows

-- A completed batch with one transaction, of the only goal.
abbrev saved_database : Database
saved_database = record full_database {
  fund_transactions =
      record {
        fund_transaction_id = codes "F1";
        goal_transaction_code = codes "C1";
        transaction_id = none;
        source = none;
        client_id = codes "c";
        account_id = codes "a";
        goal_id = codes "g";
        fund_id = codes "X";
        upload_batch_id = id;
        transaction_date = none;
        date_created = none;
        transaction_type = codes "DEPOSIT";
        amount = none;
        units = none;
        bid_price = none;
        offer_price = none;
        mid_price = none;
        price_date = none;
        row_number = 2;
      }
      ∷ [];
  batches = record batch { processing_status = completed } ∷ [];
}

-- The goal, the account and the client have gone with the transaction.
abbrev rolled_back : Progress
rolled_back = record {
  database = record empty_database { batches = [] };
  counts = record { fund_transactions = 1; goals = 1; accounts = 1; clients = 1 };
}

abbrev saved_database-Integrity : Integrity saved_database
saved_database-Integrity = record {
  fund_goals = refl;
  fund_accounts = refl;
  fund_clients = refl;
  bank_goals = refl;
  bank_accounts = refl;
  bank_clients = refl;
  goal_accounts = refl;
  account_clients = refl;
}

rollback_batch-RolledBack_example :
    ((b : UploadBatch) × (get_batch id saved_database.batches ≡ some b)
      × (is_busy b.processing_status ≡ false))
    × RolledBack id saved_database rolled_back
unfolding rollback_batch
rollback_batch-RolledBack_example =
    rollback_batch-RolledBack id saved_database rolled_back saved_database-Integrity refl
