-- ===== src/Lib.antt =====
-- Virmill: the coordinator's durable operations, the choice of a subnet and of an update, the fields
-- of a schedule, the requests that the privileged helper serves, the access lists that it grants,
-- the volumes that may be deleted, the definitions of labs, and the stages of a guest's setup.
--
-- A workflow makes a plan, a user reviews it, and the engine applies it: it accepts a job for the
-- plan, locks the plan's resources, and runs the job's steps in a goroutine that writes each
-- transition to a journal before and after each effect. After a crash nothing is replayed: a job
-- that was under way needs recovery, and keeps its locks until its effect is observed or another
-- job takes them over.
--
--   Prelude   lists, Boolean tests, the sort, and a table with a text key. A query or a write of
--             one row of the database is a function of Prelude/Table.antt.
--   Domain    internal/domain/domain.go: errors with their exit codes, jobs, events, plans.
--   Store     internal/store: the journal. Db.antt has the schema and the queries of store.go and
--             recovery.go; Write.antt has Accept and Update, Recovery.antt has AcceptRecovery of
--             recovery_accept.go; Locks.antt has the statements on the table of locks.
--             Metadata.antt has the guarded writes of metadata.go. The invariant is in
--             Invariant.antt, and Reach.antt has the journals that sequences of transactions reach;
--             Keys.antt follows an idempotency key through them.
--   Engine    internal/operations: Apply.antt has Plan and Apply of engine.go, Run.antt has run and
--             transition, Control.antt has Cancel, Reconcile and Recover. Protocol.antt says which
--             calls a goroutine may make, of the trace of its calls alone.
--   Network   internal/app/network/allocation.go: Prefix.antt has what it uses of netip, Config.antt
--             the declaration and its validation, Allocation.antt the search. Intent.antt has
--             Validate of intent.go beside it, and Nics.antt ValidateNICs. Managed.antt has the profiles of
--             internal/backend/networkxml/network.go, with their addresses.
--   Update    internal/update: Version.antt has the versions of version.go with their texts, Check.antt
--             the choice of a release by Check of check.go.
--   Protection  internal/app/protection/policy.go: Cron.antt has the parser of a field of a schedule.
--   FileAccess  internal/backend/fileaccess/acl_linux.go: Acl.antt has the binary form of an access
--             list and the access check, Acl/Grant.antt has GrantRead.
--   Helper    internal/helper: Request.antt has the requests and the policy, Authorization.antt has
--             Authorize, Network.antt and Auxiliary.antt the checks of network.go and auxiliary.go;
--             Inspection.antt has the check of an answer.
--   Storage   internal/app/storage/graph.go: Validate and DeletionCandidates, in Graph.antt.
--   Lab       internal/app/lab/validate.go: Definition.antt has ValidateVM and Validate, which use the
--             checks of Network, and Order.antt the order of the machines.
--   GuestSetup  internal/guestsetup: Receipt.antt has the receipts of stages.go with their check,
--             Stages.antt the records that the journal of Store keeps as metadata, Execute.antt has
--             Execute and Reconcile, behind the validation of their input, with Checks.antt.
--   Wire      internal/wire/json.go: ReadFrame, in Frame.antt.
--   Samples   plans and journals for the tests, in modules whose names end in Tests.
--
-- A transaction returns the new database or an error without one, since it is rolled back. The JSON
-- bodies of rows are the values that they encode, and identifiers and times are arguments. A primary
-- key or a reference that the schema declares refuses the row. Faults of the storage are in `Env` of
-- Run.antt alone, which has for each point of a run what the handler answers, what other goroutines
-- did to the journal, and whether the database can be read and written. The handlers and the digests
-- are the parameters `Handler` and `Services`. Addresses and times are natural numbers: the source's
-- 64-bit addresses stay below 2 ^ 33. What wraps around is written out: the addresses of a managed
-- network, and the sizes of the members of an inventory. Every loop is over a list but four. The one
-- that marks the values of a term of a schedule has one more fuel than the distance of the term's
-- bounds, and each round moves at least one forward. The visit of a graph of volumes has one more
-- than the volumes, and each step marks a volume that was not marked; without fuel it is `none`. So
-- does the visit of the machines of a lab. A number that is printed has 20 digits at most.
--
-- The parameters `Services` of Helper/Request.antt stand for the standard library's path.Clean, the
-- classes of code points, and ed25519.Verify, and for the canonical form of a request. Regular
-- expressions of a fixed length and hexadecimal texts are functions of Prelude/Pattern.antt. The
-- parameter `parse_addr` is netip.ParseAddr, and `Codec` has the digests and the JSON of the records
-- of stages. What an execution reads around it, the clock, the jobs and the answer of SSH, are the
-- argument `Surroundings`.
--
-- Not modelled: texts of errors (their codes are kept), the opening and migration of the database,
-- checks for a canceled context, and the order in which Go walks the map of a recovery's resources,
-- for which one order stands. The other parts of the repository are not here: the user interface and
-- the commands, the providers, the workflows for machines, disks and captures, the executors of the
-- helper, plugins, the download of updates, and the planning of a guest's setup. Of the engine New and
-- Close are not here, which start and stop its goroutines. Of the access lists file_linux.go is not
-- here, which reads, compares and sets the lists of files by system calls. Of the
-- network profiles the rendering of XML and its match with what is observed are not here.
pub mod Prelude
pub mod Domain
pub mod Store
pub mod Engine
pub mod Lab
pub mod Network
pub mod Update
pub mod Protection
pub mod FileAccess
pub mod GuestSetup
pub mod Helper
pub mod Storage
pub mod Wire
pub mod Samples
