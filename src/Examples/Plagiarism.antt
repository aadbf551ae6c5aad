-- ===== src/Examples/Plagiarism.antt =====
-- One plagiarism run that was lost once.
use csoj_judger.Prelude.{ℕ, zero, suc, ◌≡◌, refl, true, none, some, [], ◌∷◌}
use csoj_judger.Prelude.Order.{Text, text, nat_ord, list_ord}
use csoj_judger.Prelude.Dict
use csoj_judger.Prelude.Result.{ok}
use csoj_judger.AgentRuns.Data.{Service, RunDir, queued, preparing, failed, absent}
use csoj_judger.PlagiarismRuns.Records.{Config, is_run_id, attempt_count}
use csoj_judger.PlagiarismRuns.Operations.{append_event}
use csoj_judger.PlagiarismRuns.Retries.{reconcile_one, recover_persisted_result}
use csoj_judger.PlagiarismRuns.Retries.PutBack.{IsPutBack, reconcile_one_puts_back}

abbrev digits : ℕ → Text
digits zero = []
digits (suc n) = 48 ∷ digits n

abbrev run_id : Text
run_id = 112 ∷ 108 ∷ 97 ∷ 103 ∷ 105 ∷ 97 ∷ 114 ∷ 105 ∷ 115 ∷ 109 ∷ 45 ∷ digits 64

abbrev lost : RunDir
lost = record {
  metadata = none;
  request = some [];
  events =
      (record { sequence = 3; state = failed; updated_at = 9; error_code = some (text "JOB_LOST") })
      ∷ (record { sequence = 2; state = preparing; updated_at = 8; error_code = none })
      ∷ (record { sequence = 1; state = queued; updated_at = 7; error_code = none })
      ∷ [];
  result = absent;
  ready = true;
}

abbrev service : Service
service = record {
  disk = (run_id, lost) ∷ [];
  runs = [];
  latest_by_submission = [];
  queue = [];
  started = true;
}

abbrev cfg : Config
cfg = record {
  allowed_models = [];
  has_workers = true;
  max_queued = 4;
  max_request_bytes = 100;
  max_run_attempts = 3;
  reconcile_batch_size = 2;
}

its_id : is_run_id run_id ≡ true
unfolding is_run_id
its_id = refl

it_is_stored : Dict.get service.disk run_id ≡ some lost
unfolding Dict.get
it_is_stored = refl

it_is_put_back : (reconcile_one cfg 10 service run_id).1 ≡ ok 1
unfolding reconcile_one recover_persisted_result append_event is_run_id attempt_count Dict.get
    Dict.put
it_is_put_back = refl

reconcile_one_puts_back_example :
    IsPutBack cfg 10 service run_id lost (reconcile_one cfg 10 service run_id)
reconcile_one_puts_back_example =
    reconcile_one_puts_back cfg 10 service run_id lost its_id it_is_stored it_is_put_back
