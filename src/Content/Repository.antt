-- ===== src/Content/Repository.antt =====
-- infrastructure/database/content.py: the table of contents with the operations of
-- `PostgresContentRepository`, under the unique keys of alembic/versions/0003_content_core.py. A
-- row is kept as the record that `_record` reads from it. `now` is the clock of the operation.
pub mod Versions
pub mod Tracking
pub mod Rows
pub mod Unique
pub mod Candidates
pub mod Valid
use web_access_mcp_server.Base.{
  ℕ, zero, suc, ◌+◌, String, Bool, true, false, not, ◌&&◌, ◌||◌, Option, none, some, List, [], ◌∷◌,
  ◌++◌, any, map, select, leb, ◌==◌, str_eq, if◌then◌else◌, is_none, is_some, same_text, take,
}
use web_access_mcp_server.Content.Model.{
  ContentState, creating, available, failed, expired, deleted, RepresentationKind, ContentFormat,
  ContentObject, state_is,
}

-- the parts of `ContentInspection` that become columns, and the rest of its JSON
pub record Inspection : Type 0 where
  pub detected_media_type : Option String
  pub detected_format : ContentFormat
  pub details : String

pub record ContentRecord : Type 0 where
  pub content : ContentObject
  pub storage_key : Option String
  pub staging_key : Option String
  pub staged_at : Option ℕ
  pub available_at : Option ℕ
  pub updated_at : ℕ
  pub failure_code : Option String
  pub inspection : Option Inspection

abbrev pub Table : Type 0
Table = List ContentRecord

abbrev pub has_id : String → ContentRecord → Bool
has_id id r = str_eq r.content.content_id id

-- the rows of an id, of which the unique key allows one
unfoldable pub rows_of : String → Table → Table
rows_of id = select (has_id id)

abbrev pub first_row : Table → Option ContentRecord
first_row [] = none
first_row (r ∷ rs) = some r

unfoldable pub get : String → Table → Option ContentRecord
unfolding rows_of
get id t = first_row (rows_of id t)

-- `ContentObjectRow(**_content_values(content))`
unfoldable pub new_row : ContentObject → ContentRecord
new_row content = record {
  content = content;
  storage_key = none;
  staging_key = none;
  staged_at = none;
  available_at = none;
  updated_at = content.created_at;
  failure_code = none;
  inspection = none;
}

abbrev pub same : Option String → Option String → Bool
same none none = true
same (some a) (some b) = str_eq a b
same _ _ = false

abbrev pub kind_is : RepresentationKind → RepresentationKind → Bool
kind_is RepresentationKind.raw RepresentationKind.raw = true
kind_is RepresentationKind.text RepresentationKind.text = true
kind_is RepresentationKind.markdown RepresentationKind.markdown = true
kind_is RepresentationKind.structured RepresentationKind.structured = true
kind_is RepresentationKind.binary RepresentationKind.binary = true
kind_is _ _ = false

-- an active row of the same derived identity
unfoldable pub is_winner : ContentObject → ContentRecord → Bool
is_winner c r =
    str_eq r.content.owner_principal_id c.owner_principal_id
    && is_some r.content.source_content_id
    && same r.content.source_content_id c.source_content_id
    && same r.content.provenance.producer_capability c.provenance.producer_capability
    && same r.content.provenance.producer_revision c.provenance.producer_revision
    && same r.content.provenance.profile_revision c.provenance.profile_revision
    && same r.content.provenance.parameters_hash c.provenance.parameters_hash
    && kind_is r.content.representation_kind c.representation_kind
    && same r.content.provenance.schema_revision c.provenance.schema_revision
    && (state_is r.content.state creating || state_is r.content.state available)

-- `ContentRepresentationClaim`, or the errors of the claim
pub data Claim : Type 0 where
  claimed existing : ContentRecord → Claim
  not_derived no_winner : Claim

-- the index of the active representations: a row that is active with the identity of another
unfoldable pub is_second : ContentObject → Table → Bool
unfolding is_winner
is_second c t = (state_is c.state creating || state_is c.state available) && any (is_winner c) t

-- a conflict with the unique key of the ids or with the index
abbrev pub conflicts : ContentObject → Table → Bool
conflicts c t = any (has_id c.content_id) t || is_second c t

-- `add` and its flush; `none` is the IntegrityError of a conflict
unfoldable pub add : ContentObject → Table → Option Table
unfolding new_row is_second
add content t = if conflicts content t then none else some (t ++ (new_row content ∷ []))

unfoldable pub claim_representation : ContentObject → Table → Claim × Table
unfolding is_winner is_second new_row
claim_representation c t =
    if is_none c.source_content_id
    then (not_derived, t)
    else if not (conflicts c t)
    then (claimed (new_row c), t ++ (new_row c ∷ []))
    else (elim (first_row (select (is_winner c) t)) [ none ↦ no_winner | some r ↦ existing r ], t)

-- `UPDATE ... WHERE content_id = :id AND guard ... RETURNING id`, and the row after it
unfoldable pub is_hit : String → (ContentRecord → Bool) → ContentRecord → Bool
is_hit id guard r = has_id id r && guard r

abbrev pub change_hit :
    (ContentRecord → Bool) → (ContentRecord → ContentRecord) → ContentRecord → ContentRecord
change_hit p change r = if p r then change r else r

unfoldable pub update_where :
    String
    → (ContentRecord → Bool)
    → (ContentRecord → ContentRecord)
    → Table
    → Option ContentRecord × Table
unfolding is_hit get
update_where id guard change t =
    let t' = map (change_hit (is_hit id guard) change) t in
    if any (is_hit id guard) t then (get id t', t') else (none, t)

-- `state == ... AND revision == expected_revision`
abbrev pub at_revision : ContentState → ℕ → ContentRecord → Bool
at_revision state expected r = state_is r.content.state state && r.content.revision == expected

unfoldable pub staged_row : ℕ → ℕ → String → String → ℕ → ContentRecord → ContentRecord
staged_row now expected staging_key sha256 size_bytes r = record r {
  content = record (r.content) {
    sha256 = some sha256;
    size_bytes = some size_bytes;
    revision = expected + 1;
  };
  staging_key = some staging_key;
  staged_at = some now;
  updated_at = now;
}

unfoldable pub set_staged :
    ℕ → String → ℕ → String → String → ℕ → Table → Option ContentRecord × Table
unfolding update_where staged_row
set_staged now id expected staging_key sha256 size_bytes =
    update_where id (at_revision creating expected)
      (staged_row now expected staging_key sha256 size_bytes)

unfoldable pub published_row : ℕ → ℕ → String → ContentRecord → ContentRecord
published_row now expected storage_key r = record r {
  content = record (r.content) { state = available; revision = expected + 1 };
  storage_key = some storage_key;
  staging_key = none;
  available_at = some now;
  updated_at = now;
}

abbrev pub publishable : ℕ → ContentRecord → Bool
publishable expected r =
    at_revision creating expected r && is_some r.content.sha256 && is_some r.content.size_bytes

unfoldable pub publish : ℕ → String → ℕ → String → Table → Option ContentRecord × Table
unfolding update_where published_row
publish now id expected storage_key =
    update_where id (publishable expected) (published_row now expected storage_key)

unfoldable pub failed_row : ℕ → ℕ → String → ContentRecord → ContentRecord
failed_row now expected failure_code r = record r {
  content = record (r.content) { state = failed; revision = expected + 1 };
  failure_code = some failure_code;
  updated_at = now;
}

unfoldable pub mark_failed : ℕ → String → ℕ → String → Table → Option ContentRecord × Table
unfolding update_where failed_row
mark_failed now id expected failure_code =
    update_where id (at_revision creating expected) (failed_row now expected failure_code)

unfoldable pub inspected_row : ℕ → ℕ → Inspection → ContentRecord → ContentRecord
inspected_row now expected i r = record r {
  content = record (r.content) {
    detected_format = some i.detected_format;
    revision = expected + 1;
  };
  inspection = some i;
  updated_at = now;
}

unfoldable pub save_inspection : ℕ → String → ℕ → Inspection → Table → Option ContentRecord × Table
unfolding update_where inspected_row
save_inspection now id expected i =
    update_where id (λ r. at_revision available expected r && is_none r.inspection)
      (inspected_row now expected i)

-- `ORDER BY updated_at, id`, for a table in the order of its ids
unfoldable pub insert_row : ContentRecord → Table → Table
insert_row r [] = r ∷ []
insert_row r (x ∷ xs) =
    let rest = insert_row r xs in if leb r.updated_at x.updated_at then r ∷ x ∷ xs else x ∷ rest

unfoldable pub by_update : Table → Table
unfolding insert_row
by_update [] = []
by_update (r ∷ rs) = insert_row r (by_update rs)

-- the queries of the maintenance
unfoldable pub stale_creating : ℕ → ℕ → Table → Table
unfolding by_update
stale_creating older_than limit t =
    take limit
      (by_update (select (λ r. state_is r.content.state creating && leb r.updated_at older_than) t))

unfoldable pub has_active_storage_reference : String → Table → Bool
has_active_storage_reference key t =
    any (λ r. same_text r.storage_key key && state_is r.content.state available) t

unfoldable pub available_for_audit : ℕ → Table → Table
unfolding by_update
available_for_audit limit t =
    take limit (by_update (select (λ r. state_is r.content.state available) t))

unfoldable pub known_staging_handles : Table → List String
known_staging_handles [] = []
known_staging_handles (r ∷ rs) =
    let rest = known_staging_handles rs in
    if state_is r.content.state creating
    then (elim (r.staging_key) [ none ↦ rest | some key ↦ key ∷ rest ])
    else rest

-- a failed, expired or deleted row with a storage key
abbrev pub is_candidate : ℕ → ContentRecord → Bool
is_candidate older_than r =
    (state_is r.content.state failed
      || state_is r.content.state expired
      || state_is r.content.state deleted)
    && leb r.updated_at older_than
    && is_some r.storage_key

-- `DISTINCT` over the keys of the rows
unfoldable pub distinct_keys : Table → List String
distinct_keys [] = []
distinct_keys (r ∷ rs) =
    let rest = distinct_keys rs in
    elim (r.storage_key) [
      | none ↦ rest
      | some key ↦ if any (λ k. str_eq k key) rest then rest else key ∷ rest
    ]

unfoldable pub gc_storage_candidates : ℕ → ℕ → Table → List String
unfolding distinct_keys
gc_storage_candidates older_than limit t =
    take limit (distinct_keys (select (is_candidate older_than) t))

-- one write of a unit of work, with the time of its clock
pub data Change : Type 0 where
  adds claims : ContentObject → Change
  stages : ℕ → String → ℕ → String → String → ℕ → Change
  publishes : ℕ → String → ℕ → String → Change
  fails : ℕ → String → ℕ → String → Change
  inspects : ℕ → String → ℕ → Inspection → Change

-- the table after the write, if its unit of work is committed
unfoldable pub apply : Table → Change → Table
unfolding add claim_representation set_staged publish mark_failed save_inspection
apply t (adds c) = elim (add c t) [ none ↦ t | some t' ↦ t' ]
apply t (claims c) = (claim_representation c t).1
apply t (stages now id expected staging_key sha256 size_bytes) =
    (set_staged now id expected staging_key sha256 size_bytes t).1
apply t (publishes now id expected storage_key) = (publish now id expected storage_key t).1
apply t (fails now id expected failure_code) = (mark_failed now id expected failure_code t).1
apply t (inspects now id expected i) = (save_inspection now id expected i t).1

unfoldable pub apply_all : Table → List Change → Table
unfolding apply
apply_all t [] = t
apply_all t (c ∷ cs) = apply_all (apply t c) cs

-- Contents are added in the state CREATING, and published where the blob of a key is locked.
abbrev pub is_routine : Change → Bool
is_routine (adds c) = state_is c.state creating
is_routine (claims c) = state_is c.state creating
is_routine (publishes now id expected key) = false
is_routine _ = true
