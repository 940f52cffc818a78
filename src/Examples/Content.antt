-- ===== src/Examples/Content.antt =====
-- application/content, infrastructure/database/content.py and infrastructure/content/filesystem.py on
-- concrete inputs.
use web_access_mcp_server.Base.{String, ◌≡◌, refl, true, none, List, [], ◌∷◌, map, All}
use web_access_mcp_server.Base.Effects.{ok}
use web_access_mcp_server.Content.Model.{
  ContentState, is_valid, creating, available, RepresentationKind, ContentObject, hex_text,
}
use web_access_mcp_server.Content.Repository.{
  ContentRecord, Table, Change, adds, stages, publishes, fails, apply_all, rows_of, new_row,
  available_for_audit, gc_storage_candidates,
}
use web_access_mcp_server.Content.Repository.Versions.{Follows}
use web_access_mcp_server.Content.Repository.Tracking.{apply_all-Follows}
use web_access_mcp_server.Content.Storage.{
  Event, writes, reads, links, locks_final, stats, commits, locks_candidate, checks, removes, empty,
  run, audit, storage_key_of,
}
use web_access_mcp_server.Content.Repository.Valid.{apply_all-is_valid}
use web_access_mcp_server.Content.Repository.Candidates.{apply_all-gc_storage_candidates}
use web_access_mcp_server.Content.Storage.Audit.{run-audit}

abbrev pub content_id : String
content_id = "cnt_0123456789abcdef0123456789abcdef"

abbrev pub sha256 : String
sha256 = "e3b0c44298fc1c149afbf4c8996fb92427ae41e4649b934ca495991b7852b855"

abbrev pub created : ContentObject
created = record {
  content_id = content_id;
  owner_principal_id = "p";
  state = creating;
  revision = 1;
  representation_kind = RepresentationKind.raw;
  created_at = 0;
  media_type = none;
  detected_format = none;
  source_filename = none;
  size_bytes = none;
  sha256 = none;
  expires_at = none;
  source_content_id = none;
  provenance = record {
    producer_capability = none;
    producer_revision = none;
    schema_revision = none;
    profile_revision = none;
    parameters_hash = none;
  };
}

abbrev staging_key : String
staging_key = "staging/cnt_0123456789abcdef0123456789abcdef/0123456789abcdef0123456789abcdef.part"

-- The failure comes too late.
abbrev pub changes : List Change
changes =
    stages 1 content_id 1 staging_key sha256 0
    ∷ publishes 2 content_id 2 (storage_key_of sha256)
    ∷ fails 3 content_id 2 "cancelled"
    ∷ []

states : Table → List ContentState
states = map (λ r. r.content.state)

late_failure_is_refused : states (apply_all (new_row created ∷ []) changes) ≡ available ∷ []
unfolding states apply_all new_row storage_key_of
late_failure_is_refused = refl

apply_all-Follows_example :
    (r' : ContentRecord) × (rows_of content_id (apply_all (new_row created ∷ []) changes) ≡ r' ∷ [])
    × Follows (new_row created) r'
unfolding rows_of new_row
apply_all-Follows_example =
    apply_all-Follows content_id (new_row created ∷ []) (new_row created) changes refl

-- A content is published while its blob is a candidate for removal.
abbrev history : List Event
history =
    writes (adds created)
    ∷ writes (stages 1 content_id 1 staging_key sha256 0)
    ∷ links sha256 0
    ∷ reads content_id
    ∷ locks_final 0
    ∷ locks_candidate (storage_key_of sha256)
    ∷ stats (storage_key_of sha256)
    ∷ commits 2 (storage_key_of sha256)
    ∷ locks_candidate (storage_key_of sha256)
    ∷ checks (storage_key_of sha256)
    ∷ removes (storage_key_of sha256)
    ∷ []

content_is_published : states (run empty history).table ≡ available ∷ []
unfolding states run storage_key_of
content_is_published = refl

run-audit_example :
    audit (run empty history).store (available_for_audit 10 (run empty history).table) ≡ ok 0
run-audit_example = run-audit history 10

apply_all-gc_storage_candidates_example :
    gc_storage_candidates 100 10 (apply_all [] (adds created ∷ changes)) ≡ []
apply_all-gc_storage_candidates_example =
    apply_all-gc_storage_candidates (adds created ∷ changes) 100 10

apply_all-is_valid_example :
    All (λ r. is_valid r.content ≡ true) (apply_all (new_row created ∷ []) changes)
unfolding is_valid new_row hex_text
apply_all-is_valid_example =
    apply_all-is_valid (new_row created ∷ []) changes (refl, (tt, (tt, tt))) (refl, tt)
