-- ===== src/Search/Flow.antt =====
-- infrastructure/search/admission.py: the generation marker that both Lua scripts keep, which
-- puts a provider under quarantine when Redis has lost its state. A time is in milliseconds.
use web_access_mcp_server.Base.{
  ℕ, ◌+◌, String, Bool, true, false, not, Option, none, some, ltb, str_eq, if◌then◌else◌,
}

-- the hash under the generation key
pub record Marker : Type 0 where
  pub generation : String
  pub run_id : String
  pub quarantine_until : ℕ

-- `generation = ARGV[...]` with a new quarantine
abbrev pub new_marker : ℕ → String → ℕ → String → Marker
new_marker now run_id horizon generation = record {
  generation = generation;
  run_id = run_id;
  quarantine_until = now + horizon;
}

-- The marker after a script has looked at it: it is made anew if it is missing or stems from
-- another run of the server.
unfoldable pub refresh : ℕ → String → ℕ → String → Option Marker → Marker
refresh now run_id horizon generation none = new_marker now run_id horizon generation
refresh now run_id horizon generation (some m) =
    if not (str_eq m.run_id run_id) then new_marker now run_id horizon generation else m

-- `_FLOW_READINESS`
unfoldable pub flow_ready : ℕ → String → Option Marker → Bool
flow_ready now run_id none = false
flow_ready now run_id (some m) =
    if not (str_eq m.run_id run_id)
    then false
    else if ltb now m.quarantine_until
    then false
    else true
