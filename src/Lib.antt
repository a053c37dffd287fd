-- ===== src/Lib.antt =====
-- A model of imgsrv, a server that publishes operating-system images, and what holds of it.
--
-- The program takes uploads of image files, keeps them as verified blobs, and publishes versions
-- of images from them. A draft version is published by a job of three steps, each of which a
-- worker claims from the database for a while, carries out and ends; the workers run in a loop
-- that backs off on errors. Blobs are served over HTTP, in parts if a request asks for a byte
-- range.
--
-- The parts of this development:
--
-- - Prelude: lists as tables, tests, Go's strings, int64 over the native numbers, errors as the
--   lists of the sentinels that they wrap, and transactions over a database of any type (Tx).
-- - Catalog: the name patterns of internal/catalog/catalog.go (matches_image_name is the pattern
--   of ValidateImageName, and so on).
-- - Publish: internal/publish/publish.go and internal/store/postgres/publish/store.go. Domain has
--   the states and parameters, Tables the rows and the transactions, Statements, Versions,
--   Enqueue, Retry and Steps the functions of the store under their names (claim is ClaimStep,
--   fail_step is FailStep), with the constraints and the trigger of
--   internal/store/postgres/migrations/000003_publish_jobs.sql. A transaction is a function of
--   the database to a result and a database; one that fails leaves the database as it was.
--   Effects, RowEffects, Outcomes, EndOutcomes, JobOutcomes and RetryOutcome say what a
--   transaction has done when it commits; Change is the relation between the tables of steps
--   before and after one statement; Keys, Order, Attached and Fencing are what each change keeps,
--   and Moves, Next and Reach carry that to sequences of calls.
-- - Publish.Coupling, Coupled and Agreement: the states of jobs and of their versions together;
--   Publish.Claiming, Finalizing, Retrying, Exclusion, Published and Leases: the claim, the last
--   step, and what no sequence of calls does.
-- - Worker: internal/jobs/publishflow/job.go; run_once is RunOnce over the store of Publish, with
--   the calls that others make in between as an argument.
-- - Runner: internal/jobs/runner.go; a turn of the loop is a function of the outcome of an
--   attempt.
-- - Uploads: internal/uploads/uploads.go (Domain) and the upload store in
--   internal/store/postgres/uploads: Tables has the rows, Statements the statements, Sessions and
--   Ingest the operations of sessions.go, blobs.go and ingest.go under their names, with the
--   constraints of internal/store/postgres/migrations/000001_initial_schema.sql that the
--   statements meet.
--   Consistent is the invariant of the tables, Change what one call may do to them, Keeping and
--   Handing what each change keeps, Outcomes, Committed and JobsCommitted what a transaction has
--   done when it commits, and Calls, Reach, Lifecycle and Refines carry that to sequences of
--   calls; Completing, Claiming, Readied, Rounds, Closed and Blobs are about single operations.
-- - Staging: internal/uploads/service.go over those tables and an interface to staging storage
--   (Objects). Service has BeginUpload and PutUploadPart, Completion has CompleteUpload,
--   AbortUpload and GetUpload with the recovery of a staged object, and Calls the requests in
--   sequence; Evidence, Parts, Known, Begun, Once, Writes, Requests and Served are about
--   them.
-- - Cas: internal/cas/service.go. Keys has StorageKey, Commit has CommitStagedUpload and what it
--   calls; Objects is the part of internal/objectstore/objectstore.go's Store that it uses, with
--   the laws that it relies on, and Files a store that has them. Grows, Recovery, Faithful,
--   Ensured, Committed, Promises and Trust follow the trusted blobs through a commit.
-- - Promote: internal/jobs/promote/job.go; promote_once is RunOnce over Uploads and Cas. Leads,
--   Commits and Readied follow the tables through a commit; Runs, Worked and Idle are about runs.
-- - Multipart: NormalizeCompleteParts of internal/objectstore/objectstore.go. The sort is by
--   insertion; slices.SortFunc may order parts of one number otherwise, but such parts are
--   refused.
-- - BlobRange: the Range header of internal/httpapi/blob_handler.go.
--
-- Identities and instants are numbers. Every transaction is one step: the store takes row locks
-- before it writes, and the rows that other transactions lock are an argument of the claim (SKIP
-- LOCKED). Fresh identities and the time of a transaction are arguments too. The object store is
-- a record of operations over a state of any type, whose answers are free but for the laws in
-- Cas/Objects.antt; the hash, the clocks and the texts of identities, numbers and errors are
-- fields of the records that the operations take. No call of others is placed between the steps
-- of a request to the upload service, a commit or a promotion. No definition runs
-- on fuel: every loop is over a list, and the loop of the runner over a list of outcomes of any
-- length.
--
-- Not modelled: ListProjectionRows, the created_at and updated_at columns, the text of errors,
-- OpenBlob and the reads of blobs, the network, the S3 client, metrics and logs, the HTTP
-- handlers but for byte ranges, the client, and the packages for authorization and for the
-- catalog beyond its names.
pub mod Prelude
pub mod Catalog
pub mod Publish
pub mod Worker
pub mod Uploads
pub mod Cas
pub mod Staging
pub mod Promote
pub mod Multipart
pub mod Runner
pub mod BlobRange
