-- ===== src/Lib.antt =====
-- OJ Arbiter (the package oj_checker), a read-only reviewer of course submissions, as a model and its
-- theorems.
--
-- The program. A catalog gives snapshots of submissions; a submission store reads the sources of one
-- under path rules and byte budgets; the similarity detector finds candidate pairs; review runs are
-- queued, executed and recovered through an append-only log of events on disk.
--
-- The files and the code that they model (paths from the repository's root):
--   Domain, Catalog            src/oj_checker/domain.py, catalog.py: requests with their validation, the
--                              choice of each owner's best submission, snapshots.
--   SubmissionStore            src/oj_checker/submission_store.py: safe paths, submission patterns as
--                              expressions with a matcher, limits from a lab definition, opening files
--                              without following links in a tree of nodes, the bundle loader.
--   AgentRuns                  src/oj_checker/agent_runs.py: the event log, the cache and the queue as a
--                              service record; each operation returns the new service and its result.
--                              AgentRuns.System composes them, with crashes and restarts, as steps.
--   PlagiarismRuns             src/oj_checker/plagiarism_runs.py: the queue of plagiarism runs, on the
--                              records of AgentRuns.
--   AgentExecution             src/oj_checker/agent_execution.py: one run, from the bundle to the report.
--   ReviewBundle               src/oj_checker/review_bundle.py: the signed envelope, the validation of its
--                              payload, and the submission that it names.
--   PlagiarismBundle           src/oj_checker/plagiarism_bundle.py: the same for a request over the
--                              submissions of one lab.
--   AgentTools                 src/oj_checker/agent_tools.py: the workspace as trees of nodes, with what
--                              symbolic links lead to, the reading of arguments, and
--                              the read-only tools with their pages.
--   AgentReviewer              src/oj_checker/agent_reviewer.py: the validation of reports, the reading of
--                              responses and of event streams, and the bounded loop of turns over a client.
--   Nightly                    src/oj_checker/nightly.py: the loop over the night's candidates.
--   Similarity                 src/oj_checker/similarity.py: shingles, the Jaccard score, MinHash
--                              signatures, the searches for one target and among all.
--   ReviewLedger               src/oj_checker/review_ledger.py, immutable_store.py: the cache of completed
--                              reviews over create-only files.
--   ReportStore                src/oj_checker/report_store.py: manifests, results and summaries over the
--                              create-only files of the ledger.
--   AuditRunner                src/oj_checker/runner.py: a run's plan over the catalog, with the tasks
--                              of exact duplicates, the loop over the
--                              tasks of a run, with the ledger, the report store and a reviewer, and
--                              a run that is executed again.
--   Json                       the values that json.loads gives.
--   Prelude                    orders as an instance interface, a stable sort, dictionaries, texts as
--                              lists of code points, results.
--   Examples                   the theorems at concrete inputs.
--
-- Conventions. A Python exception is an error of a Result; a dictionary is an association list in
-- insertion order; a sorted call is a stable insertion sort by a key with a total order; a timestamp is
-- an instant in UTC. There is no fuel: every loop of the modelled code runs over a list.
-- Only the client that follows the cursors of a listing (AgentTools.Broker.Following.follow) has a
-- bound on its answers, for which more answers than entries are left is enough.
--
-- Parameters. The model's client (AgentReviewer.Loop.Setting), the decoders of its event streams
-- (AgentReviewer.Stream.Reading.Wire), `git diff` and the text libraries of the tools
-- (AgentTools.Broker, AgentTools.Listing.Library), the UTF-8 decoder, the token pattern's findall and
-- the BLAKE2b digest are arguments. So are the stages of a run that other modules carry out
-- (AgentExecution.Ports), the reviewer of an audit run, and the answers of the report API
-- (Nightly.Client). JSON, SHA-256 and the timestamps' texts of the ledger are ReviewLedger.Codec, the
-- indented `json.dumps` of reports ReportStore.Printer, and Ed25519, PEM keys, JSON, SHA-256 and
-- `datetime.fromisoformat` of the signed bundles ReviewBundle.Checks.Libraries.
--
-- Not modelled: the command line, the HTTP servers, the language model's clients but for the reading
-- of event streams, PostgreSQL, Git and the operating system's files beyond the tree of nodes, all
-- input and output; threads and locks, whose interleavings are the steps of AgentRuns.System. The
-- audit runner's preparation of formal review tasks, the reviewer of chunks, the preparation of
-- workspaces and the scopes are not modelled.
mod Prelude
pub mod Json
pub mod Domain
pub mod Catalog
pub mod SubmissionStore
pub mod AgentRuns
pub mod Similarity
pub mod AgentExecution
pub mod AgentTools
pub mod AgentReviewer
pub mod ReviewBundle
pub mod PlagiarismBundle
pub mod ReportStore
pub mod AuditRunner
pub mod Nightly
pub mod ReviewLedger
pub mod PlagiarismRuns
mod Examples
