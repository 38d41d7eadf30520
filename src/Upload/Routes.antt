-- ===== src/Upload/Routes.antt =====
-- The handlers of src/routes/fundUploadRoutes.ts that approve or reject the new entities of a batch
-- and cancel a batch, and the dispatch of the worker, src/services/fund-worker.ts. The queue is
-- outside: a handler answers with the jobs to add and the ids of those to remove.
pub mod Approval
use xeno_reconciliation.Prelude.{
  ℕ, Bool, true, false, not, ◌&&◌, ◌||◌, Option, none, some, List, [], ◌∷◌, ◌++◌, if◌then◌else◌,
  ◌==◌, nat_eq, list_eq,
}
use xeno_reconciliation.Prelude.Text.{Text, codes}
use xeno_reconciliation.Upload.Records.{
  ProcessingStatus, queued, parsing, validating, processing, waiting_for_approval, completed,
  failed, canceled, ProcessingError, Database, Run, fail_with, UploadBatch, outside,
}
use xeno_reconciliation.Upload.Batches.{get_batch, update_batch_after_approval, cancel_batch}
use xeno_reconciliation.Upload.Repository.{delete_transactions_by_batch_id}
use xeno_reconciliation.Upload.Processor.{Setting, process_file, resume_processing}

pub data RouteError : Type 0 where
  invalid_approval_status unknown_batch not_waiting queue_error : RouteError
  database_error : ProcessingError → RouteError

pub data JobName : Type 0 where
  process_new_upload resume_after_approval unknown_job : JobName

pub record Job : Type 0 where
  pub name : JobName
  pub batch_id : Text
  pub file_path : Text
  pub job_id : Text

-- The answer of a handler: the tables, what it failed with, and what it asks of the queue.
pub record Answer : Type 0 where
  pub database : Database
  pub error : Option RouteError
  pub added : List Job
  pub removed : List Text

abbrev pub refuse : RouteError → Database → Answer
refuse e db = record { database = db; error = some e; added = []; removed = [] }

abbrev pub resume_id : Text → Text
resume_id id = id ++ codes "-resume"

abbrev pub resume_job : UploadBatch → Job
resume_job batch = record {
  name = resume_after_approval;
  batch_id = batch.id;
  file_path = batch.file_path;
  job_id = resume_id batch.id;
}

abbrev pub is_waiting : ProcessingStatus → Bool
is_waiting queued = false
is_waiting parsing = false
is_waiting validating = false
is_waiting processing = false
is_waiting waiting_for_approval = true
is_waiting completed = false
is_waiting failed = false
is_waiting canceled = false

abbrev pub is_approval : Text → Bool
is_approval approval_status = approval_status == codes "approved"

-- From the update of the batch on. `takes` is whether the queue takes a job or throws; what it
-- throws does not undo the update.
unfoldable pub record_approval :
    (Job → Bool) → ℕ → Text → Bool → Text → UploadBatch → Database → Answer
unfolding update_batch_after_approval
record_approval takes now id approves approved_by batch db =
    let run = update_batch_after_approval now id approves approved_by db in
    elim run.error [
      | some e ↦ refuse (database_error e) run.database
      | none ↦
          if approves && not (takes (resume_job batch))
          then refuse queue_error run.database
          else record {
            database = run.database;
            error = none;
            added = if approves then resume_job batch ∷ [] else [];
            removed = [];
          }
    ]

unfoldable pub approve_waiting : (Job → Bool) → ℕ → Text → Bool → Text → Database → Answer
unfolding get_batch record_approval
approve_waiting takes now id approves approved_by db = elim (get_batch id db.batches) [
  | none ↦ refuse unknown_batch db
  | some batch ↦
      if is_waiting batch.processing_status
      then record_approval takes now id approves approved_by batch db
      else refuse not_waiting db
]

-- `POST /batches/:batchId/approve-entities`
unfoldable pub approve_entities : (Job → Bool) → ℕ → Text → Text → Text → Database → Answer
unfolding approve_waiting
approve_entities takes now id approval_status approved_by db =
    if is_approval approval_status || approval_status == codes "rejected"
    then approve_waiting takes now id (is_approval approval_status) approved_by db
    else refuse invalid_approval_status db

-- `POST /batches/:batchId/cancel`
unfoldable pub cancel_upload : ℕ → Text → Database → Answer
unfolding get_batch cancel_batch delete_transactions_by_batch_id
cancel_upload now id db = elim (get_batch id db.batches) [
  | none ↦ refuse unknown_batch db
  | some batch ↦
      let run = cancel_batch now id db in
      elim run.error [
        | some e ↦ refuse (database_error e) run.database
        | none ↦ record {
          database = delete_transactions_by_batch_id id run.database;
          error = none;
          added = [];
          removed = id ∷ [];
        }
      ]
]

-- The worker's `switch` on the name of a job.
unfoldable pub run_job : Setting → Job → Database → Run
unfolding process_file resume_processing
run_job setting job db = elim job.name [
  | process_new_upload ↦ process_file setting job.batch_id job.file_path db
  | resume_after_approval ↦ resume_processing setting job.batch_id job.file_path db
  | unknown_job ↦ fail_with (outside (codes "Unknown job name")) db
]
