-- ===== src/Content/Model.antt =====
-- domain/content/models.py: the values of a Content, the states that it may go through, and the
-- validator of `ContentObject`. A time is in milliseconds of UTC.
use Prim.Native.Char.{code}
use web_access_mcp_server.Base.{
  ℕ, zero, suc, String, Bool, true, false, not, ◌&&◌, ◌||◌, Option, List, [], ◌∷◌, any, all, leb,
  ◌==◌, if◌then◌else◌, is_none, is_some, text_length, holds, same_text,
}

pub data ContentState : Type 0 where
  creating available failed expired deleted : ContentState

pub data RepresentationKind : Type 0 where
  raw text markdown structured binary : RepresentationKind

pub data ContentFormat : Type 0 where
  html plain_text json xml csv pdf unknown_format : ContentFormat

-- `state is ContentState.X`
abbrev pub state_is : ContentState → ContentState → Bool
state_is creating creating = true
state_is available available = true
state_is failed failed = true
state_is expired expired = true
state_is deleted deleted = true
state_is _ _ = false

-- `_TRANSITIONS`
unfoldable pub transitions : ContentState → List ContentState
transitions creating = available ∷ failed ∷ []
transitions available = expired ∷ deleted ∷ []
transitions failed = deleted ∷ []
transitions expired = deleted ∷ []
transitions deleted = []

unfoldable pub can_transition_content : ContentState → ContentState → Bool
unfolding transitions
can_transition_content current target = any (state_is target) (transitions current)

-- `[0-9a-f]`
abbrev pub is_hex : ℕ → Bool
is_hex c = (leb b'0' c && leb c b'9') || (leb b'a' c && leb c b'f')

-- `[0-9a-f]{n}` up to the end
unfoldable pub hex_text : ℕ → String → Bool
hex_text zero String.[] = true
hex_text zero (String.◌∷◌ c s) = false
hex_text (suc n) String.[] = false
hex_text (suc n) (String.◌∷◌ c s) = is_hex (code c) && hex_text n s

-- `_SHA256.fullmatch`
abbrev pub is_sha256 : String → Bool
is_sha256 = hex_text 64

-- `_CONTENT_ID.fullmatch`
unfoldable pub is_content_id : String → Bool
unfolding hex_text
is_content_id (String.◌∷◌ c (String.◌∷◌ n (String.◌∷◌ t (String.◌∷◌ u s)))) =
    code c == b'c' && code n == b'n' && code t == b't' && code u == b'_' && hex_text 32 s
is_content_id _ = false

-- the columns that a derived Content has and a root Content has not
pub record Provenance : Type 0 where
  pub producer_capability : Option String
  pub producer_revision : Option String
  pub schema_revision : Option String
  pub profile_revision : Option String
  pub parameters_hash : Option String

pub record ContentObject : Type 0 where
  pub content_id : String
  pub owner_principal_id : String
  pub state : ContentState
  pub revision : ℕ
  pub representation_kind : RepresentationKind
  pub created_at : ℕ
  pub media_type : Option String
  pub detected_format : Option ContentFormat
  pub source_filename : Option String
  pub size_bytes : Option ℕ
  pub sha256 : Option String
  pub expires_at : Option ℕ
  pub source_content_id : Option String
  pub provenance : Provenance

-- which of the provenance columns are set
abbrev pub columns : Provenance → List Bool
columns p =
    is_some p.producer_capability
    ∷ is_some p.producer_revision
    ∷ is_some p.schema_revision
    ∷ is_some p.profile_revision
    ∷ is_some p.parameters_hash
    ∷ []

-- `__post_init__`: `false` where it raises. A naive timestamp and a negative size cannot be written
-- down here.
unfoldable pub is_valid : ContentObject → Bool
unfolding hex_text
is_valid c =
    (leb 1 (text_length c.owner_principal_id) && leb (text_length c.owner_principal_id) 128)
    && leb 1 c.revision
    && holds is_sha256 c.sha256
    && (if is_none c.size_bytes then is_none c.sha256 else is_some c.sha256)
    && not (state_is c.state available && is_none c.sha256)
    && (if is_none c.source_content_id
        then not (any (λ b. b) (columns c.provenance))
        else all (λ b. b) (columns c.provenance))
    && not (same_text c.source_content_id c.content_id)
    && holds is_sha256 c.provenance.parameters_hash
