-- ===== src/Upload/Routes/Approval.antt =====
-- What the approval route lets through, and how the job that it asks for ends.
use xeno_reconciliation.Prelude.{==_iff}
use xeno_reconciliation.Upload.Creator.{fits_account}
use xeno_reconciliation.Upload.Repository.{fits_columns, fund_code, create_many, stored_row}
use xeno_reconciliation.Upload.Detector.{name_of, number_of, goal_number}
use xeno_reconciliation.Prelude.{
  ℕ, ◌<◌, ◌≡◌, refl, ap, ◌∙◌, ◌⊎◌, inl, inr, Bool, true, false, not, none, some, List, [], ◌∷◌, map,
  Bool-cases, arith, all, any, if◌then◌else◌, includes, nat_eq, list_eq,
}
use xeno_reconciliation.Prelude.Text.{Text, codes}
use xeno_reconciliation.Validation.Types.{ParsedFundTransaction}
use xeno_reconciliation.Validation.Partition.{is_rejected}
use xeno_reconciliation.Upload.Records.{
  processing, failed, approved, rejected, returned, UploadBatch, Database,
}
use xeno_reconciliation.Upload.Batches.{
  get_batch, is_batch, set_approval, update_batch, update_batch_after_approval,
}
use xeno_reconciliation.Upload.Batches.Laws.{HasBatch, update_batch-HasBatch}
use xeno_reconciliation.Upload.Detector.{detect_new_entities}
use xeno_reconciliation.Upload.Creator.Complete.{Grown}
use xeno_reconciliation.Upload.Repository.Known.{has_fund}
use xeno_reconciliation.Upload.Processor.{Setting, is_approved}
use xeno_reconciliation.Upload.Processor.Resume.{Completes, resume_processing-Completes}
use xeno_reconciliation.Upload.Routes.{
  Answer, Job, queue_error, is_waiting, resume_job, record_approval, approve_waiting,
  approve_entities, run_job,
}

-- What the approval leaves of a batch that waited.
abbrev pub Decided : Bool → UploadBatch → UploadBatch → Type 0
Decided true old new =
    (new.processing_status ≡ processing)
    × (new.new_entities_status ≡ some approved)
    × (new.new_entities_report ≡ old.new_entities_report)
Decided false old new =
    (new.processing_status ≡ failed)
    × (new.new_entities_status ≡ some rejected)
    × (new.new_entities_report ≡ old.new_entities_report)

-- The batch waited, and the decision is recorded in it.
abbrev pub Recorded : Text → Bool → Database → Database → Type 0
Recorded id approves db after =
    (b : UploadBatch) × (get_batch id db.batches ≡ some b)
    × (is_waiting b.processing_status ≡ true)
    × HasBatch id (Decided approves b) after

-- A call that fails asks for no job, and changes nothing, unless it fails because the queue does not
-- take the job of an approval that is recorded. Else the batch waited, the decision is recorded, and
-- the one job is asked for where it is an approval.
abbrev pub Guarded : Text → Bool → Database → Answer → Type 0
Guarded id approves db answer = elim answer.error [
  | some e ↦
      (answer.added ≡ [])
      × ((answer.database ≡ db)
          ⊎ ((e ≡ queue_error) × (approves ≡ true) × Recorded id true db answer.database))
  | none ↦
      (b : UploadBatch) × (get_batch id db.batches ≡ some b)
      × (is_waiting b.processing_status ≡ true)
      × HasBatch id (Decided approves b) answer.database
      × (answer.added ≡ (if approves then resume_job b ∷ [] else []))
]

set_approval-Decided :
    (now : ℕ) (approves : Bool) (by : Text) (b : UploadBatch)
    → Decided approves b (set_approval now approves by b)
set_approval-Decided now true by b = (refl, refl, refl)
set_approval-Decided now false by b = (refl, refl, refl)

get_batch-id :
    (id : Text) (bs : List UploadBatch) (b : UploadBatch) → get_batch id bs ≡ some b → b.id ≡ id
unfolding get_batch
get_batch-id id [] b h = ground (arith, h)
get_batch-id id (c ∷ bs) b h = elim (Bool-cases (is_batch id c)) [
  | inl here ↦
      let same : some c ≡ some b = ground (arith, here, h) in
      ground (arith, same, (==_iff c.id id).0 here)
  | inr there ↦ get_batch-id id bs b (ground (arith, there, h))
]

-- The tables beside the batches are left alone.
abbrev SameTables : Database → Database → Type 0
SameTables db after =
    (after.clients ≡ db.clients)
    × (after.accounts ≡ db.accounts)
    × (after.goals ≡ db.goals)
    × (after.funds ≡ db.funds)
    × (after.fund_transactions ≡ db.fund_transactions)

update_batch-SameTables :
    (id : Text) (change : UploadBatch → UploadBatch) (db : Database)
    → SameTables db (update_batch id change db).database
unfolding update_batch
update_batch-SameTables id change db = elim (Bool-cases (any (is_batch id) db.batches)) [
  | inl e ↦ rw (update_batch, e) (refl, refl, refl, refl, refl)
  | inr e ↦ rw (update_batch, e) (refl, refl, refl, refl, refl)
]

-- An upload that waits and is approved is saved: where the batch waits with the report that was
-- detected, the queue takes the job, no client, account or goal was deleted since, the file of the
-- batch still reads as the same transactions, none of which lacks a required field and each of which
-- names a fund that exists, and the columns take the values of each and of each new account, the
-- approval asks for one job, and that job returns, completes the batch and creates a row for every
-- transaction, where the unique keys of the table let it.
pub approve_entities-resume :
    (setting : Setting) (takes : Job → Bool) (now : ℕ) (id by : Text) (old db : Database)
    (b : UploadBatch) (ts : List ParsedFundTransaction)
    → 0 < setting.batch_insert_size
    → get_batch id db.batches ≡ some b
    → is_waiting b.processing_status ≡ true
    → b.new_entities_report ≡ some (detect_new_entities old ts)
    → Grown old db
    → setting.parse_file b.file_path ≡ returned ts
    → all (λ t. not (is_rejected setting.validation setting.clock t)) ts ≡ true
    → all (has_fund db) ts ≡ true
    → all fits_columns ts ≡ true
    → all fits_account (detect_new_entities old ts).accounts ≡ true
    → takes (resume_job b) ≡ true
    → let answer = approve_entities takes now id (codes "approved") by db in
      (answer.added ≡ resume_job b ∷ [])
      × Completes id ts db.fund_transactions (run_job setting (resume_job b) answer.database)
unfolding approve_entities approve_waiting record_approval update_batch_after_approval run_job
approve_entities-resume setting takes now id by old db b ts positive at_id waits reported grown read
      clean funds fit new_accounts taken =
    let change = set_approval now true by in
    let (ends, (c, there, decided)) =
      update_batch-HasBatch id change (λ d. refl) (Decided true b) db
        (b, at_id, set_approval-Decided now true by b) in
    let (same_status, same_approval, same_report) = decided in
    let after = (update_batch id change db).database in
    let (clients, accounts, goals, same_funds, transactions) =
      update_batch-SameTables id change db in
    let grown_after : Grown old after = record {
      clients = λ n h. ap (λ rows. includes (map name_of rows) n) clients ∙ grown.clients n h;
      accounts = λ n h. ap (λ rows. includes (map number_of rows) n) accounts ∙ grown.accounts n h;
      goals = λ n h. ap (λ rows. includes (map goal_number rows) n) goals ∙ grown.goals n h;
    } in
    let (done, complete, (rs, listed, created)) =
      resume_processing-Completes setting id positive ts b.file_path old after grown_after read
        clean (ap (λ fs. all (λ t. includes (map fund_code fs) t.fund_code) ts) same_funds ∙ funds)
        fit new_accounts (c, there, (ap is_approved same_approval, same_report ∙ reported)) in
    rw
      (
        approve_entities,
        approve_waiting,
        at_id,
        waits,
        record_approval,
        update_batch_after_approval,
        ends,
        taken,
        run_job,
        get_batch-id id db.batches b at_id,
      )
      (
        refl,
        (
          done,
          complete,
          (
            rs,
            listed,
            created ∙ ap (λ table. create_many table (map (stored_row id) rs)) transactions,
          ),
        ),
      )
