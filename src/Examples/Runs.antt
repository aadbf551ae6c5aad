-- ===== src/Examples/Runs.antt =====
-- One review run, from its creation to the worker's first step.
use csoj_judger.Prelude.{ℕ, zero, suc, arith, ◌≡◌, refl, true, none, [], ◌∷◌}
use csoj_judger.Prelude.Order.{Text, text, nat_ord, list_ord}
use csoj_judger.Prelude.Dict
use csoj_judger.AgentRuns.Data.{Config, is_run_id, public_run}
use csoj_judger.AgentRuns.Service.{Bundle, create, run_id_of, new_run}
use csoj_judger.AgentRuns.Service.Creation.{IsResent, create-create}
use csoj_judger.Prelude.Result.{ok}
use csoj_judger.AgentRuns.Worker.{fine, taken}
use csoj_judger.AgentRuns.Growth.{Sound, Grows}
use csoj_judger.AgentRuns.System.{System, Steps, done, more, creates, takes, works, after_step}
use csoj_judger.AgentRuns.Worker.{execute_step}
use csoj_judger.AgentRuns.System.Invariant.{none_ready, Steps-Sound}

abbrev hex_digits : ℕ → Text
hex_digits zero = []
hex_digits (suc n) = 97 ∷ hex_digits n

abbrev bundle : Bundle
bundle = record {
  payload_digest = hex_digits 64;
  model = text "glm";
  submission_id = text "s1";
  source = text "manual";
}

abbrev cfg : Config
cfg = record {
  allowed_models = text "glm" ∷ [];
  has_workers = true;
  max_queued = 4;
  max_run_attempts = 3;
  reconcile_batch_size = 2;
}

abbrev idle : System
idle = record {
  service = record { disk = []; runs = []; latest_by_submission = []; queue = []; started = true };
  working = [];
}

abbrev with_run : System
with_run = record idle { service = (create cfg idle.service bundle [] 10).0 }

abbrev in_work : System
in_work = record {
  service = record with_run.service { queue = [] };
  working = (run_id_of bundle, taken) ∷ [];
}

abbrev moved : System
moved =
    after_step (execute_step in_work.service (run_id_of bundle) 20 taken fine) (run_id_of bundle) []

it_is_queued : with_run.service.queue ≡ run_id_of bundle ∷ []
unfolding create Dict.get Dict.put
it_is_queued = refl

moves : Steps cfg idle moved
moves = more idle with_run moved (creates idle bundle [] 10) (
    more with_run in_work moved (takes with_run (run_id_of bundle) [] it_is_queued) (
      more in_work moved moved (works in_work (run_id_of bundle) taken [] 20 fine refl)
        (done moved)))

nothing-Sound : Sound idle.service
unfolding Sound Dict.get
nothing-Sound id dir h = ground arith

Steps-Sound_example : Sound moved.service × Grows idle.service moved.service
Steps-Sound_example = Steps-Sound cfg idle moved moves nothing-Sound none_ready

its_id : is_run_id (run_id_of bundle) ≡ true
unfolding is_run_id
its_id = refl

it_is_new : Dict.get idle.service.disk (run_id_of bundle) ≡ none
unfolding Dict.get
it_is_new = refl

it_is_created :
    create cfg idle.service bundle [] 10
    ≡ (with_run.service, ok (public_run cfg (new_run bundle 10)))
unfolding create Dict.get Dict.put
it_is_created = refl

create-create_example :
    IsResent cfg with_run.service bundle [] 15 (public_run cfg (new_run bundle 10))
create-create_example =
    create-create cfg idle.service with_run.service bundle [] [] 10 15
      (public_run cfg (new_run bundle 10)) its_id it_is_new it_is_created
