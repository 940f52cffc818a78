-- ===== src/Examples/Usage.antt =====
-- infrastructure/search/usage.py on concrete inputs.
use web_access_mcp_server.Base.{◌≡◌, refl, none, some, List, [], ◌∷◌, map}
use web_access_mcp_server.Search.Attempts.{AttemptStage, dispatch_possible, completed}
use web_access_mcp_server.Search.Usage.{
  AttemptKey, AttemptRow, StageMark, UsageWork, starts, marks, mark_stage, update, work_all,
  stage_rank,
}
use web_access_mcp_server.Search.Usage.Evidence.{Extends, work_all-Extends}
use web_access_mcp_server.Search.Usage.Started.{mark_stage-start_attempt}

abbrev key : AttemptKey
key = record {
  operation_id = "op";
  provider_id = "yandex";
  query_item_index = 0;
  attempt_number = 1;
}

abbrev mark_as : AttemptStage → StageMark
mark_as stage = record {
  stage = stage;
  outcome_code = some "code";
  retry_reason = none;
  provider_request_id = none;
}

abbrev started : List AttemptRow
started = work_all [] (starts "p" key ∷ [])

-- The second mark is stale.
abbrev works : List UsageWork
works = marks 5 key (mark_as completed) ∷ marks 6 key (mark_as dispatch_possible) ∷ []

stale_mark_is_refused : map (λ r. r.completed_at) (work_all started works) ≡ some 5 ∷ []
unfolding work_all stage_rank
stale_mark_is_refused = refl

work_all-Extends_example : Extends started (work_all started works)
work_all-Extends_example = work_all-Extends works started

mark_stage-start_attempt_example :
    mark_stage 5 key (mark_as completed) started ≡ some (update 5 key (mark_as completed) started)
unfolding work_all
mark_stage-start_attempt_example =
    mark_stage-start_attempt 5 "p" key (mark_as completed) [] started refl
