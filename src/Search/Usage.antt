-- ===== src/Search/Usage.antt =====
-- infrastructure/search/usage.py: the table of billable attempts with `start_attempt` and
-- `mark_stage`. The columns' checks and the unique key are those of
-- alembic/versions/0002_search_attempt_accounting.py. Database errors, as that of a
-- text longer than its column, change nothing and are left to the caller.
pub mod Evidence
pub mod Started
use web_access_mcp_server.Base.{
  ℕ, suc, ◌+◌, String, Bool, true, false, not, ◌&&◌, ◌||◌, Option, none, some, List, [], ◌∷◌, ◌++◌,
  length, any, select, leb, ◌==◌, str_eq, if◌then◌else◌, is_some,
}
use web_access_mcp_server.Search.Attempts.{
  AttemptStage, pre_dispatch, dispatch_possible, response_received, completed,
}

pub record AttemptKey : Type 0 where
  pub operation_id : String
  pub provider_id : String
  pub query_item_index : ℕ
  pub attempt_number : ℕ

pub record AttemptRow : Type 0 where
  pub key : AttemptKey
  pub principal_id : String
  pub stage : AttemptStage
  pub outcome_code : Option String
  pub retry_reason : Option String
  pub provider_request_id : Option String
  pub completed_at : Option ℕ

-- what `mark_stage` writes
pub record StageMark : Type 0 where
  pub stage : AttemptStage
  pub outcome_code : Option String
  pub retry_reason : Option String
  pub provider_request_id : Option String

abbrev pub same_key : AttemptKey → AttemptKey → Bool
same_key a b =
    str_eq a.operation_id b.operation_id
    && str_eq a.provider_id b.provider_id
    && a.query_item_index == b.query_item_index
    && a.attempt_number == b.attempt_number

-- `CASE stage WHEN ...`
unfoldable pub stage_rank : AttemptStage → ℕ
stage_rank pre_dispatch = 0
stage_rank dispatch_possible = 1
stage_rank response_received = 2
stage_rank completed = 3

-- `COALESCE(new, old)`
abbrev pub coalesce {ℓ} : {A : Type ℓ} → Option A → Option A → Option A
coalesce (some a) old = some a
coalesce none old = old

-- `start_attempt`; `none` is `SearchUsageUnavailable`
unfoldable pub start_attempt : String → AttemptKey → List AttemptRow → Option (List AttemptRow)
start_attempt principal_id key rows =
    if not (leb key.query_item_index 31)
      || not (leb 1 key.attempt_number && leb key.attempt_number 16)
      || any (λ r. same_key r.key key) rows
    then none
    else some (
        rows
        ++ (record {
          key = key;
          principal_id = principal_id;
          stage = pre_dispatch;
          outcome_code = none;
          retry_reason = none;
          provider_request_id = none;
          completed_at = none;
        }
            ∷ []))

-- the condition of the update
unfoldable pub is_marked : AttemptKey → StageMark → AttemptRow → Bool
is_marked key mark r = same_key r.key key && leb (stage_rank r.stage) (stage_rank mark.stage)

unfoldable pub set_row : ℕ → StageMark → AttemptRow → AttemptRow
set_row now mark r = record r {
  stage = mark.stage;
  outcome_code = coalesce mark.outcome_code r.outcome_code;
  retry_reason = coalesce mark.retry_reason r.retry_reason;
  provider_request_id = coalesce mark.provider_request_id r.provider_request_id;
  completed_at = if is_some mark.outcome_code then some now else r.completed_at;
}

-- `UPDATE ... SET ... WHERE`
unfoldable pub update : ℕ → AttemptKey → StageMark → List AttemptRow → List AttemptRow
unfolding is_marked set_row
update now key mark [] = []
update now key mark (r ∷ rs) =
    (if is_marked key mark r then set_row now mark r else r) ∷ update now key mark rs

-- `mark_stage`; `none` is `SearchUsageUnavailable`, after which the transaction is rolled back
unfoldable pub mark_stage : ℕ → AttemptKey → StageMark → List AttemptRow → Option (List AttemptRow)
unfolding update is_marked
mark_stage now key mark rows =
    if not (length (select (is_marked key mark) rows) == 1)
    then none
    else some (update now key mark rows)

-- a unit of work, and the table after it was committed or rolled back
pub data UsageWork : Type 0 where
  starts : String → AttemptKey → UsageWork
  marks : ℕ → AttemptKey → StageMark → UsageWork

abbrev pub committed : Option (List AttemptRow) → List AttemptRow → List AttemptRow
committed none rows = rows
committed (some rows') rows = rows'

unfoldable pub work : List AttemptRow → UsageWork → List AttemptRow
unfolding start_attempt mark_stage
work rows (starts principal_id key) = committed (start_attempt principal_id key rows) rows
work rows (marks now key mark) = committed (mark_stage now key mark rows) rows

unfoldable pub work_all : List AttemptRow → List UsageWork → List AttemptRow
unfolding work
work_all rows [] = rows
work_all rows (w ∷ ws) = work_all (work rows w) ws
