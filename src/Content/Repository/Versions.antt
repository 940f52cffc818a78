-- ===== src/Content/Repository/Versions.antt =====
-- infrastructure/database/content.py: how the row of a content changes over time.
use web_access_mcp_server.Base.{
  ℕ, ◌<◌, ◌≡◌, ◌⊎◌, inl, inr, refl, sym, ap, ◌∙◌, String, Bool, true, false, ◌&&◌, Option, none,
  Bool-cases, arith, is_none,
}
use web_access_mcp_server.Content.Model.{
  ContentState, creating, available, RepresentationKind, ContentObject, Provenance, state_is,
  transitions, can_transition_content,
}
use web_access_mcp_server.Content.Repository.{
  ContentRecord, Inspection, has_id, is_hit, at_revision, staged_row, published_row, publishable,
  failed_row, inspected_row,
}

-- what identifies a content and never changes
pub record Identity : Type 0 where
  pub content_id : String
  pub owner_principal_id : String
  pub representation_kind : RepresentationKind
  pub created_at : ℕ
  pub media_type : Option String
  pub source_filename : Option String
  pub expires_at : Option ℕ
  pub source_content_id : Option String
  pub provenance : Provenance

abbrev pub identity_of : ContentObject → Identity
identity_of c = record {
  content_id = c.content_id;
  owner_principal_id = c.owner_principal_id;
  representation_kind = c.representation_kind;
  created_at = c.created_at;
  media_type = c.media_type;
  source_filename = c.source_filename;
  expires_at = c.expires_at;
  source_content_id = c.source_content_id;
  provenance = c.provenance;
}

-- A later version of a row: the same content, the same version or a higher revision, a state that
-- the transitions allow, of an available content the same data, and an inspection once it is there.
pub record Follows (r r' : ContentRecord) : Type 0 where
  pub identity : identity_of r'.content ≡ identity_of r.content
  pub version : (r' ≡ r) ⊎ (r.content.revision < r'.content.revision)
  pub state :
      (r'.content.state ≡ r.content.state)
      ⊎ ((r.content.state ≡ creating)
          × (can_transition_content r.content.state r'.content.state ≡ true))
  pub kept :
      (state_is r.content.state available ≡ false)
      ⊎ ((r'.content.state ≡ available)
          × (r'.content.sha256 ≡ r.content.sha256)
          × (r'.content.size_bytes ≡ r.content.size_bytes)
          × (r'.storage_key ≡ r.storage_key))
  pub inspection : (r.inspection ≡ none) ⊎ (r'.inspection ≡ r.inspection)

is_available : (s : ContentState) → state_is s available ≡ true → s ≡ available
is_available s h = ground arith

is_creating : (s : ContentState) → state_is s creating ≡ true → s ≡ creating
is_creating s h = ground arith

pub Follows-refl : (r : ContentRecord) → Follows r r
Follows-refl r = record {
  identity = refl;
  version = inl refl;
  state = inl refl;
  kept = elim (Bool-cases (state_is r.content.state available)) [
    | inl h ↦ inr (is_available r.content.state h, refl, refl, refl)
    | inr h ↦ inl h
  ];
  inspection = inr refl;
}

never_again :
    (s s' : ContentState)
    → s ≡ creating
    → can_transition_content s s' ≡ true
    → state_is s' creating ≡ false
unfolding can_transition_content transitions
never_again s s' e h = ground arith

pub Follows-trans : (a b c : ContentRecord) → Follows a b → Follows b c → Follows a c
Follows-trans a b c f g = record {
  identity = g.identity ∙ f.identity;
  version = version f.version g.version;
  state = state f.state g.state;
  kept = kept f.kept g.kept;
  inspection = inspection f.inspection g.inspection;
}
  where
    inspection :
        (a.inspection ≡ none) ⊎ (b.inspection ≡ a.inspection)
        → (b.inspection ≡ none) ⊎ (c.inspection ≡ b.inspection)
        → (a.inspection ≡ none) ⊎ (c.inspection ≡ a.inspection)
    inspection (inl n) g' = inl n
    inspection (inr e) (inl n) = inl (sym e ∙ n)
    inspection (inr e) (inr e') = inr (e' ∙ e)

    version :
        (b ≡ a) ⊎ (a.content.revision < b.content.revision)
        → (c ≡ b) ⊎ (b.content.revision < c.content.revision)
        → (c ≡ a) ⊎ (a.content.revision < c.content.revision)
    version (inl e) (inl e') = inl (e' ∙ e)
    version (inl e) (inr l) =
        inr (omega (arith, ap (λ (r : ContentRecord). r.content.revision) e, l))
    version (inr l) (inl e) =
        inr (omega (arith, ap (λ (r : ContentRecord). r.content.revision) e, l))
    version (inr l) (inr l') = inr (omega (arith, l, l'))

    state :
        (b.content.state ≡ a.content.state)
          ⊎ ((a.content.state ≡ creating)
              × (can_transition_content a.content.state b.content.state ≡ true))
        → (c.content.state ≡ b.content.state)
          ⊎ ((b.content.state ≡ creating)
              × (can_transition_content b.content.state c.content.state ≡ true))
        → (c.content.state ≡ a.content.state)
          ⊎ ((a.content.state ≡ creating)
              × (can_transition_content a.content.state c.content.state ≡ true))
    state (inl e) (inl e') = inl (e' ∙ e)
    state (inl e) (inr h) =
        inr (sym e ∙ h.0, ap (λ s. can_transition_content s c.content.state) (sym e) ∙ h.1)
    state (inr h) (inl e) = inr (h.0, ap (can_transition_content a.content.state) e ∙ h.1)
    state (inr h) (inr h') = cc (never_again a.content.state b.content.state h.0 h.1, h'.0)

    kept :
        (state_is a.content.state available ≡ false)
          ⊎ ((b.content.state ≡ available)
              × (b.content.sha256 ≡ a.content.sha256)
              × (b.content.size_bytes ≡ a.content.size_bytes)
              × (b.storage_key ≡ a.storage_key))
        → (state_is b.content.state available ≡ false)
          ⊎ ((c.content.state ≡ available)
              × (c.content.sha256 ≡ b.content.sha256)
              × (c.content.size_bytes ≡ b.content.size_bytes)
              × (c.storage_key ≡ b.storage_key))
        → (state_is a.content.state available ≡ false)
          ⊎ ((c.content.state ≡ available)
              × (c.content.sha256 ≡ a.content.sha256)
              × (c.content.size_bytes ≡ a.content.size_bytes)
              × (c.storage_key ≡ a.storage_key))
    kept (inl n) g' = inl n
    kept (inr k) (inl n) = cc (k.0, n)
    kept (inr k) (inr k') = inr (k'.0, k'.1 ∙ k.1, k'.2 ∙ k.2, k'.3 ∙ k.3)

-- the condition of an update that is held to a state and a revision
at_revision_lem :
    (id : String) (s : ContentState) (n : ℕ) (g : Bool) (r : ContentRecord)
    → (has_id id r && (at_revision s n r && g)) ≡ true
    → (state_is r.content.state s ≡ true) × (r.content.revision ≡ n)
at_revision_lem id s n g r h = ground arith

no_inspection : (a b : Bool) (i : Option Inspection) → (a && (b && is_none i)) ≡ true → i ≡ none
no_inspection a b i h = ground arith

module _ (id : String) (n : ℕ) (r : ContentRecord) where
  pub staged-Follows :
      (now : ℕ) (key sha : String) (size : ℕ)
      → is_hit id (at_revision creating n) r ≡ true
      → Follows r (staged_row now n key sha size r)
  unfolding is_hit staged_row
  staged-Follows now key sha size h = record {
    identity = refl;
    version = inr (ground arith);
    state = inl refl;
    kept = inl (ground arith);
    inspection = inr refl;
  }

  pub published-Follows :
      (now : ℕ) (key : String)
      → is_hit id (publishable n) r ≡ true
      → Follows r (published_row now n key r)
  unfolding is_hit published_row can_transition_content transitions
  published-Follows now key h = record {
    identity = refl;
    version = inr (ground arith);
    state = inr (ground arith);
    kept = inl (ground arith);
    inspection = inr refl;
  }

  pub failed-Follows :
      (now : ℕ) (code : String)
      → is_hit id (at_revision creating n) r ≡ true
      → Follows r (failed_row now n code r)
  unfolding is_hit failed_row can_transition_content transitions
  failed-Follows now code h = record {
    identity = refl;
    version = inr (ground arith);
    state = inr (ground arith);
    kept = inl (ground arith);
    inspection = inr refl;
  }

  pub inspected-Follows :
      (now : ℕ) (i : Inspection)
      → is_hit id (λ x. at_revision available n x && is_none x.inspection) r ≡ true
      → Follows r (inspected_row now n i r)
  unfolding is_hit inspected_row
  inspected-Follows now i h = record {
    identity = refl;
    version = inr (ground arith);
    state = inl refl;
    kept = inr (ground arith);
    inspection = inl (no_inspection (has_id id r) (at_revision available n r) r.inspection h);
  }
