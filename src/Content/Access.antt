-- ===== src/Content/Access.antt =====
-- application/content/service.py: what a caller may read of a Content, its reference and provenance.
-- `now` is the caller's clock. The relations are listed in the order of their times and ids.
use web_access_mcp_server.Base.{
  ℕ, String, Bool, true, false, not, ◌&&◌, Option, none, some, List, [], ◌∷◌, select, take, leb,
  ltb, str_eq, if◌then◌else◌, is_some, is_none, any,
}
use web_access_mcp_server.Base.Effects.{Result, ok, raised}
use web_access_mcp_server.Common.Auth.{require_scope, require_owner}
use web_access_mcp_server.Content.Model.{
  ContentState, available, RepresentationKind, ContentObject, Provenance, state_is, is_content_id,
  columns,
}
use web_access_mcp_server.Content.Repository.{ContentRecord, Table, get}
pub mod Readable

-- the exceptions of the service; `scope_denied` and `owner_denied` are its AuthorizationErrors
pub data ContentError : Type 0 where
  scope_denied owner_denied not_found unavailable lifecycle invalid_cursor bad_request :
      ContentError

pub record Caller : Type 0 where
  pub principal_id : String
  pub scopes : List String
  pub now : ℕ

pub record ContentRelation : Type 0 where
  pub source_content_id : String
  pub target_content_id : String

-- `for_source(source_content_id, limit=limit)`
unfoldable pub for_source : ℕ → String → List ContentRelation → List ContentRelation
for_source limit id relations = take limit (select (λ r. str_eq r.source_content_id id) relations)

-- `expires_at is not None and expires_at <= now`
abbrev pub is_expired : ℕ → Option ℕ → Bool
is_expired now none = false
is_expired now (some t) = leb t now

-- the guard of the record that is asked for
unfoldable pub is_readable : ℕ → ContentRecord → Bool
is_readable now r =
    state_is r.content.state available
    && is_some r.storage_key
    && not (is_expired now r.content.expires_at)

-- the guard of a target of its relations
unfoldable pub is_shown : Caller → ContentRecord → Bool
is_shown caller r =
    str_eq r.content.owner_principal_id caller.principal_id
    && state_is r.content.state available
    && not (is_expired caller.now r.content.expires_at)

abbrev add_target : Caller → Option ContentRecord → List ContentRecord → List ContentRecord
unfolding is_shown
add_target caller none rest = rest
add_target caller (some r) rest = if is_shown caller r then r ∷ rest else rest

unfoldable pub targets : Caller → Table → List ContentRelation → List ContentRecord
unfolding get is_shown
targets caller t [] = []
targets caller t (r ∷ rs) = add_target caller (get r.target_content_id t) (targets caller t rs)

unfoldable pub authorize :
    Caller
    → Option ContentRecord
    → List ContentRecord
    → Result ContentError (ContentRecord × List ContentRecord)
unfolding require_owner is_readable
authorize caller none shown = raised not_found
authorize caller (some r) shown =
    if not (require_owner caller.principal_id r.content.owner_principal_id)
    then raised owner_denied
    else if not (is_readable caller.now r)
    then raised unavailable
    else ok (r, shown)

unfoldable pub load_authorized :
    Caller
    → String
    → Table
    → List ContentRelation
    → Result ContentError (ContentRecord × List ContentRecord)
unfolding require_scope authorize targets for_source is_content_id get
load_authorized caller content_id t relations =
    if not (require_scope caller.scopes "content:read")
    then raised scope_denied
    else if not (is_content_id content_id)
    then raised not_found
    else authorize caller (get content_id t) (targets caller t (for_source 32 content_id relations))

pub record ContentRef : Type 0 where
  pub content_id : String
  pub media_type : Option String
  pub representation : RepresentationKind
  pub size_bytes : ℕ
  pub sha256 : String
  pub created_at : ℕ
  pub expires_at : Option ℕ

unfoldable pub content_ref : ContentObject → Result ContentError ContentRef
content_ref c = elim (c.size_bytes) [
  | none ↦ raised lifecycle
  | some size ↦ elim (c.sha256) [
    | none ↦ raised lifecycle
    | some sha256 ↦ ok (record {
      content_id = c.content_id;
      media_type = c.media_type;
      representation = c.representation_kind;
      size_bytes = size;
      sha256 = sha256;
      created_at = c.created_at;
      expires_at = c.expires_at;
    })
  ]
]
