-- ===== src/PlagiarismRuns/Operations.antt =====
-- The operations of `FilePlagiarismRunService` in src/oj_checker/plagiarism_runs.py that record events, create
-- runs and look them up. An operation returns the new service and what it raised, since what was
-- written before a raise stays written.
use csoj_judger.Prelude.{
  ℕ, ◌+◌, Bool, true, not, Option, none, some, List, [], ◌∷◌, ◌++◌, length, leb, ltb, if◌then◌else◌,
}
use csoj_judger.Prelude.Order.{Text, text, nat_ord, list_ord, pair_ord}
use csoj_judger.Prelude.Dict.{get, put}
use csoj_judger.Prelude.Result.{Result, ok, err}
use csoj_judger.Catalog.{member}
use csoj_judger.SubmissionStore.Paths.{is_canonical_uuid}
use csoj_judger.AgentRuns.Data.{
  RunState, queued, RunError, invalid_run_id, unknown_run, invalid_record, model_not_allowed,
  queue_full, submission_id_refused, bundle_refused, Event, Metadata, absent, object, invalid,
  RunDir, Run, Service,
}
use csoj_judger.AgentRuns.Service.{Outcome, index_run, after, Bundle}
use csoj_judger.PlagiarismRuns.Records.{Config, is_run_id, attempt_count, read_run}

abbrev pub new_event : RunDir → RunState → ℕ → Option Text → Event
new_event dir state at code = record {
  sequence = length dir.events + 1;
  state = state;
  updated_at = at;
  error_code = code;
}

abbrev pub add_event : RunDir → Event → RunDir
add_event dir e = record dir { events = e ∷ dir.events }

-- `{**cached, **event}`: a missing error code does not clear an old one.
abbrev pub or_old : Option Text → Option Text → Option Text
or_old none old = old
or_old (some code) old = some code

abbrev pub refreshed : RunDir → Event → Run → Option Run
refreshed dir e cached =
    let updated : Run = record cached {
      sequence = e.sequence;
      state = e.state;
      updated_at = e.updated_at;
      error_code = or_old e.error_code cached.error_code;
      attempts = attempt_count dir.events;
    } in
    elim dir.result [
      | absent ↦ some updated
      | object r ↦ some (record updated { result = some r })
      | invalid ↦ none
    ]

-- The cache after an event; an unreadable result raises before the cache is written.
abbrev pub store_run : Service → Text → Option Run → Outcome (Unit {0})
store_run s id none = (s, err invalid_record)
store_run s id (some run) = (record s { runs = put s.runs id run }, ok tt)

abbrev pub refresh : Service → Text → RunDir → Event → Option Run → Outcome (Unit {0})
refresh s id dir e none = (s, ok tt)
refresh s id dir e (some cached) = store_run s id (refreshed dir e cached)

abbrev pub append_in :
    Service → Text → RunState → ℕ → Option Text → Option RunDir → Outcome (Unit {0})
append_in s id state at code none = (s, err unknown_run)
append_in s id state at code (some dir) =
    let e = new_event dir state at code in
    refresh (record s { disk = put s.disk id (add_event dir e) }) id (add_event dir e) e
      (get s.runs id)

-- `_append_event`, with the `LookupError` of `_run_root`.
unfoldable pub append_event : Service → Text → RunState → ℕ → Option Text → Outcome (Unit {0})
append_event s id state at code =
    if is_run_id id then append_in s id state at code (get s.disk id) else (s, err invalid_run_id)

unfoldable pub remember : Service → Run → Outcome (Unit {0})
remember s run =
    if is_run_id run.metadata.run_id then (index_run s run, ok tt) else (s, err invalid_record)

abbrev pub get_stored : Config → Service → Option RunDir → Outcome Run
get_stored cfg s none = (s, err unknown_run)
get_stored cfg s (some dir) = elim (read_run dir) [
  | ok run ↦ after (remember s run) run
  | err e ↦ (s, err e)
]

abbrev pub get_cached : Config → Service → Text → Option Run → Outcome Run
get_cached cfg s id (some run) = (s, ok run)
get_cached cfg s id none = get_stored cfg s (get s.disk id)

-- `get`.
unfoldable pub get_run : Config → Service → Text → Outcome Run
get_run cfg s id =
    if is_run_id id then get_cached cfg s id (get s.runs id) else (s, err invalid_run_id)

-- `latest`; `_canonical_submission_id` accepts a canonical UUID only.
abbrev pub latest_public : Config → Service → Option (ℕ × Text) → Option Run
latest_public cfg s none = none
latest_public cfg s (some (created_at, id)) = elim (get s.runs id) [
  | none ↦ none
  | some run ↦ some run
]

unfoldable pub latest : Config → Service → Text → Result RunError (Option Run)
latest cfg s submission_id =
    if is_canonical_uuid submission_id
    then ok (latest_public cfg s (get s.latest_by_submission submission_id))
    else err submission_id_refused

abbrev pub run_id_of : Bundle → Text
run_id_of bundle = text "plagiarism-" ++ bundle.payload_digest

abbrev pub new_metadata : Bundle → ℕ → Metadata
new_metadata bundle now = record {
  run_id = run_id_of bundle;
  payload_digest = bundle.payload_digest;
  submission_id = bundle.submission_id;
  model = bundle.model;
  source = bundle.source;
  created_at = now;
}

-- The run's files when all of them are written.
abbrev pub new_dir : Bundle → List ℕ → ℕ → RunDir
new_dir bundle envelope now = record {
  metadata = some (new_metadata bundle now);
  request = some envelope;
  events = (record { sequence = 1; state = queued; updated_at = now; error_code = none }) ∷ [];
  result = absent;
  ready = true;
}

abbrev pub new_run : Bundle → ℕ → Run
new_run bundle now = record {
  metadata = new_metadata bundle now;
  sequence = 1;
  state = queued;
  updated_at = now;
  error_code = none;
  attempts = 0;
  result = none;
}

abbrev pub is_full : Config → Service → Bool
is_full cfg s = leb cfg.max_queued (length s.queue)

abbrev pub enqueue : Config → Service → Text → Service
enqueue cfg s id = if cfg.has_workers then record s { queue = s.queue ++ (id ∷ []) } else s

-- The part of `create` under the lock, for a bundle that was verified. The payload digest is the
-- SHA-256 of the payload, 64 hexadecimal digits, so the new run's id is a run id.
abbrev pub create_run : Config → Service → Bundle → List ℕ → ℕ → Outcome Run
create_run cfg s bundle envelope now =
    let id = run_id_of bundle in
    let written : Service = record s { disk = put s.disk id (new_dir bundle envelope now) } in
    (enqueue cfg (index_run written (new_run bundle now)) id, ok (new_run bundle now))

abbrev pub create_or_get : Config → Service → Bundle → List ℕ → ℕ → Option RunDir → Outcome Run
create_or_get cfg s bundle envelope now none = create_run cfg s bundle envelope now
create_or_get cfg s bundle envelope now (some dir) = get_run cfg s (run_id_of bundle)

unfoldable pub create : Config → Service → Bundle → List ℕ → ℕ → Outcome Run
create cfg s bundle envelope now =
    if ltb cfg.max_request_bytes (length envelope)
    then (s, err bundle_refused)
    else if not (member bundle.model cfg.allowed_models)
    then (s, err model_not_allowed)
    else if is_full cfg s
    then (s, err queue_full)
    else create_or_get cfg s bundle envelope now (get s.disk (run_id_of bundle))
