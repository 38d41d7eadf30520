-- ===== src/Lib.antt =====
-- Verification of the core of the fund reconciliation service, which compares the transactions
-- that clients' banks report with those that the fund system reports.
--
-- The program's parts. Uploaded files become fund transactions, which are validated one by one
-- and as groups with one goal transaction code (src/services/fund-upload/), and bank transactions
-- (src/services/bank-upload/). The reconciliation (src/services/reconciliation/) then pairs the
-- bank transactions of a goal with its goal transactions, lets people add and remove matches, link
-- reversals and tag reviews, and scores single bank transactions. An upload pauses where it names
-- clients, accounts or goals that are new, until a person approves them, and can be canceled or
-- rolled back. All state is in the tables of a relational database, prisma/schema.prisma.
--
-- The files.
--   Prelude: tests on native numbers, signed integers, texts as lists of UTF-16 code units, and
--     JavaScript's Map as a list of entries in the order of their first insertion, with the laws of
--     the grouping loop.
--   Store: the columns of bank_goal_transactions and fund_transactions that are read or written,
--     and updateMany.
--   Codes: GoalTransactionCodeGenerator of src/services/fund-upload/calculators/ (generate,
--     validate, parse, groupByCode) and formatDate of src/utils/dateUtils.ts.
--   SmartMatcher: getGoalTransactions and findCombinationSum of
--     src/services/reconciliation/SmartMatcher.ts. Tolerance has its constants, Combination the
--     search for a sum, Groups the goal transactions, Passes and Splits the five passes, one step
--     function for each loop body, Report the answer and what is stored. Steps is the relation of
--     the matches that are allowed in any order; Refines relates the passes to it, Once and Sound
--     are about its runs, and Maximal about what the second pass leaves.
--   Links: of the same file, as functions from the time and the tables to an outcome and the tables,
--     createManualMatch and removeManualMatch (Operations), bulkReview, reviewBankTransaction and
--     reviewGoalTransaction (Reviews), linkReversal, unlinkReversal and getReversalPairInfo (Pairs)
--     and findReversalCandidates (Candidates).
--   BankMatch: BankReconciliationMatcher.ts. Types has its data and severities, Detection
--     detectVariances, Matcher matchTransaction with status and score.
--   Upload: FundFileProcessor.ts of src/services/fund-upload/ with the classes it calls. Records has
--     the tables of prisma/schema.prisma and the report of new entities, Batches UploadBatchManager,
--     Detector and Creator the classes of entity-management/, Repository and Summary
--     FundTransactionRepository, Processor the processing itself, with its steps from the last to
--     the first, Routes the approval and cancel handlers of src/routes/fundUploadRoutes.ts and the
--     dispatch of src/services/fund-worker.ts, and Rollback BatchRollbackService. Each has its laws
--     in modules below it.
--   BankUpload: BankFileProcessor.ts of src/services/bank-upload/ (Processor) with the classes it
--     calls: Validator has validators/BankTransactionValidator.ts, Repository the saving of
--     database/BankTransactionRepository.ts, and Batches the updates of
--     database/BankUploadBatchManager.ts. Types has the data. They share the tables of Upload/Records.
--   Validation: FundTransactionValidator.ts (Fields, Batch) and GoalTransactionValidator.ts
--     (GoalGroups) of src/services/fund-upload/validators/, with the tests of src/utils/.
--
-- Conventions. Amounts are Decimal(18, 2) columns, and are integers that count hundredths; sums and
-- comparisons are exact where the code computes with doubles. A comparison with a percentage is
-- multiplied out. The validators count amounts, units and prices in millionths. Dates of the tables
-- are numbers of days, other times are milliseconds. Confidences are in hundredths. The rows that a
-- query answers are arguments, in its order, and an operation that writes answers the table after
-- it. A Set that is only asked whether it has an id is the list of what was added. A thrown error
-- is a value. Array.sort is stable, as insertion is. The loop over bit masks in findCombinationSum
-- has one round for each of the 2^n - 1 masks, which are all there are, and n is at most 10, so no
-- shift overflows 32 bits. Numbers print their digits with the number itself as fuel, and each step
-- divides by ten.
--
-- An operation of an upload takes the tables and answers the tables after it with what it threw;
-- one that is a database transaction answers the tables or what it threw. The loop over slices is
-- on fuel for as many slices as there are transactions, which is enough where a slice has an
-- element. A uuid that the database makes is a function of the number of rows created so far. The
-- columns refuse a value that is missing, too large for its precision, or no value of its
-- enumeration, as fits_columns, fits_account and fits_bank_columns say; what is left out is that a
-- text holds a zero character, that a row number or a total of a whole batch is too large for its
-- column, and that the database cannot be reached or takes too long. The time is read at the start
-- and at the end of a run.
--
-- Parameters. Whether the queue takes a job is a function. The transactions that the parser makes
-- of the file at a path, or what it throws, and the names of new rows are functions; what an
-- upload's errors say is left out, so the one test of a message (that it holds the words of a
-- failed group validation) is made of the parser's only. Date's calendar arithmetic (midnight,
-- years back and on) is a record of functions, the limits that come from the environment are a
-- record of numbers. Of a bank upload, the end of today, the day ten years ago and the change of
-- letter case are a record. Percentages of bank rows count millionths in the file and hundred-
-- millionths in the table, which stores a hundredth of them, so one number stands for both. The
-- type of a bank row is a text, which the parsers give in capitals.
--
-- Not modelled: the upload handlers' checks and the lists of batches, file parsers, summaries and
-- reports, unit registry, prices, other routes, cache and the front end, which are database queries,
-- third-party readers or glue, or stand beside what is modelled; the queue; texts for people in
-- errors and variances, and logging.
pub mod Prelude
pub mod Codes
pub mod Store
pub mod SmartMatcher
pub mod BankMatch
pub mod Validation
pub mod Links
pub mod Upload
pub mod BankUpload
