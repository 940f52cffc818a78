-- ===== src/Content/Inspect.antt =====
-- application/content/service.py: `inspect`, whose sessions other tasks may come between. The
-- identification of formats and the JSON size of its result are parameters.
pub mod Lasting
use web_access_mcp_server.Base.{
  ℕ, String, Bool, true, false, not, ◌&&◌, Option, none, some, List, ltb, if◌then◌else◌, is_some,
}
use web_access_mcp_server.Base.Effects.{Result, ok, raised, and_then}
use web_access_mcp_server.Common.Auth.{require_scope, require_owner}
use web_access_mcp_server.Content.Model.{available, state_is, is_content_id}
use web_access_mcp_server.Content.Repository.{
  ContentRecord, Table, Inspection, get, save_inspection, Change, apply_all,
}
use web_access_mcp_server.Content.Access.{
  ContentError, scope_denied, owner_denied, not_found, unavailable, lifecycle, Caller,
}
use web_access_mcp_server.Content.Reading.{ReadError, read_bounded}

-- The surroundings of an inspection: the identifier, if it is configured, which takes the sample and
-- the row; the stream of a key; and the writes of other tasks before the saving and after one that
-- found no row.
pub record Inspector : Type 0 where
  pub identify : Option (List ℕ → ContentRecord → Result ContentError Inspection)
  pub open_stream : String → List (List ℕ)
  pub sample_bytes : ℕ
  pub max_json_bytes : ℕ
  pub json_size : Inspection → ℕ
  pub now : ℕ
  pub before_saving : List Change
  pub after_refusal : List Change

-- the sample is not strict, so that its limit raises nothing
abbrev pub sampled : Result ReadError (List ℕ) → Result ContentError (List ℕ)
sampled (ok bytes) = ok bytes
sampled (raised e) = raised lifecycle

module _ (env : Inspector) where
  -- `_read_inspection_sample`
  unfoldable pub read_sample : String → Result ContentError (List ℕ)
  unfolding read_bounded
  read_sample key = sampled (read_bounded false env.sample_bytes (env.open_stream key))

  -- `serialized_size > self._max_inspection_json_bytes`
  abbrev pub bounded_json : Inspection → Result ContentError Inspection
  bounded_json i = if ltb env.max_json_bytes (env.json_size i) then raised lifecycle else ok i

  -- `if record.content.size_bytes is None or record.content.sha256 is None`
  abbrev pub has_metadata : ContentRecord → Bool
  has_metadata r = is_some r.content.size_bytes && is_some r.content.sha256

  -- the sample and what the identifier makes of it
  unfoldable pub examine :
      (List ℕ → ContentRecord → Result ContentError Inspection)
      → ContentRecord
      → String
      → Result ContentError Inspection
  unfolding read_sample
  examine identify r key =
      if not (has_metadata r)
      then raised lifecycle
      else and_then (read_sample key) (λ sample. and_then (identify sample r) bounded_json)

  -- the inspection of a row that is there
  abbrev pub of_row : Option ContentRecord → Result ContentError Inspection
  of_row none = raised lifecycle
  of_row (some r) = elim r.inspection [ some i ↦ ok i | none ↦ raised lifecycle ]

  -- after the saving: of the row that was saved, or of the winner
  abbrev pub saved_or_winner :
      String → Option ContentRecord × Table → Result ContentError Inspection × Table
  saved_or_winner id (some saved, t) = (of_row (some saved), t)
  saved_or_winner id (none, t) = let t' = apply_all t env.after_refusal in (of_row (get id t'), t')

  unfoldable pub persist :
      String
      → ContentRecord
      → Table
      → Result ContentError Inspection
      → Result ContentError Inspection × Table
  unfolding save_inspection apply_all get
  persist id r t (raised e) = (raised e, t)
  persist id r t (ok i) =
      saved_or_winner id
        (save_inspection env.now id r.content.revision i (apply_all t env.before_saving))

  -- a row that was inspected before keeps its inspection
  unfoldable pub inspect_row :
      (List ℕ → ContentRecord → Result ContentError Inspection)
      → String
      → ContentRecord
      → Table
      → Option Inspection
      → Option String
      → Result ContentError Inspection × Table
  unfolding examine persist
  inspect_row identify id r t _ none = (raised unavailable, t)
  inspect_row identify id r t (some i) (some key) = (ok i, t)
  inspect_row identify id r t none (some key) = persist id r t (examine identify r key)

  unfoldable pub inspect_found :
      Caller
      → (List ℕ → ContentRecord → Result ContentError Inspection)
      → String
      → Table
      → Option ContentRecord
      → Result ContentError Inspection × Table
  unfolding require_owner inspect_row
  inspect_found caller identify id t none = (raised not_found, t)
  inspect_found caller identify id t (some r) =
      if not (require_owner caller.principal_id r.content.owner_principal_id)
      then (raised owner_denied, t)
      else if not (state_is r.content.state available)
      then (raised unavailable, t)
      else inspect_row identify id r t r.inspection r.storage_key

  abbrev pub inspect_with :
      Caller
      → String
      → Table
      → Option (List ℕ → ContentRecord → Result ContentError Inspection)
      → Result ContentError Inspection × Table
  inspect_with caller id t none = (raised lifecycle, t)
  inspect_with caller id t (some identify) =
      if not (is_content_id id)
      then (raised not_found, t)
      else inspect_found caller identify id t (get id t)

  -- `inspect`
  unfoldable pub inspect : Caller → String → Table → Result ContentError Inspection × Table
  unfolding require_scope is_content_id get inspect_found
  inspect caller id t =
      if not (require_scope caller.scopes "content:read")
      then (raised scope_denied, t)
      else inspect_with caller id t env.identify
