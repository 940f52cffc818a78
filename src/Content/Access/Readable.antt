-- ===== src/Content/Access/Readable.antt =====
-- application/content/service.py: who may load which Content.
use web_access_mcp_server.Base.{
  String, ◌≡◌, refl, ap, sym, ◌∙◌, eq_iff, subst, true, false, Option, none, some, List, [], ◌∷◌,
  All, Bool-cases, Option-cases, inl, inr,
}
use web_access_mcp_server.Base.Effects.{Result, ok, raised}
use web_access_mcp_server.Common.Auth.{require_scope, require_owner}
use web_access_mcp_server.Content.Model.{is_content_id}
use web_access_mcp_server.Content.Repository.{ContentRecord, Table, get}
use web_access_mcp_server.Content.Access.{
  ContentError, Caller, ContentRelation, for_source, is_readable, is_shown, targets, authorize,
  load_authorized,
}

targets-All :
    (caller : Caller) (t : Table) (rs : List ContentRelation)
    → All (λ r. is_shown caller r ≡ true) (targets caller t rs)
unfolding targets
targets-All caller t [] = tt
targets-All caller t (r ∷ rs) = elim (Option-cases (get r.target_content_id t)) [
  | inl e ↦ rw (e) (targets-All caller t rs)
  | inr x ↦ elim (Bool-cases (is_shown caller x.0)) [
    | inl s ↦ rw (x.1, s) (s, targets-All caller t rs)
    | inr n ↦ rw (x.1, n) (targets-All caller t rs)
  ]
]

-- the conditions of a load
pub record MayLoad (caller : Caller) (content_id : String) (t : Table) (r : ContentRecord)
    : Type 0 where
  pub scope : require_scope caller.scopes "content:read" ≡ true
  pub id : is_content_id content_id ≡ true
  pub found : get content_id t ≡ some r
  pub owner : r.content.owner_principal_id ≡ caller.principal_id
  pub readable : is_readable caller.now r ≡ true

abbrev Loaded : Type 0
Loaded = ContentRecord × List ContentRecord

-- what was returned, or a default
returned : Loaded → Result ContentError Loaded → Loaded
returned default (ok p) = p
returned default (raised e) = default

first_of :
    (r r' : ContentRecord) (l l' : List ContentRecord)
    → Path (Result ContentError Loaded) (ok (r, l)) (ok (r', l'))
    → (r ≡ r') × (l ≡ l')
unfolding returned
first_of r r' l l' h = (ap (λ x. (returned (r, l) x).0) h, ap (λ x. (returned (r, l) x).1) h)

-- what `authorize` has checked when it returns
authorize-ok :
    (caller : Caller) (o : Option ContentRecord) (l shown : List ContentRecord) (r : ContentRecord)
    → authorize caller o l ≡ ok (r, shown)
    → (o ≡ some r)
      × (l ≡ shown)
      × (r.content.owner_principal_id ≡ caller.principal_id)
      × (is_readable caller.now r ≡ true)
unfolding authorize require_owner
authorize-ok caller none l shown r h = cc (h)
authorize-ok caller (some x) l shown r h =
    elim (Bool-cases (require_owner caller.principal_id x.content.owner_principal_id)) [
      | inr n ↦ cc (h, denied n)
      | inl e ↦ elim (Bool-cases (is_readable caller.now x)) [
        | inr n ↦ cc (h, hidden e n)
        | inl y ↦
            let same = first_of x r l shown (sym (shown_to e y) ∙ h) in
            (
              ap some same.0,
              same.1,
              ap (λ (z : ContentRecord). z.content.owner_principal_id) (sym same.0)
                  ∙ sym ((eq_iff caller.principal_id x.content.owner_principal_id).0 e),
              subst (λ z. is_readable caller.now z ≡ true) same.0 y,
            )
      ]
    ]
  where
    denied :
        require_owner caller.principal_id x.content.owner_principal_id ≡ false
        → authorize caller (some x) l ≡ raised ContentError.owner_denied
    denied n = rw (n) refl

    hidden :
        require_owner caller.principal_id x.content.owner_principal_id ≡ true
        → is_readable caller.now x ≡ false
        → authorize caller (some x) l ≡ raised ContentError.unavailable
    hidden e n = rw (e, n) refl

    shown_to :
        require_owner caller.principal_id x.content.owner_principal_id ≡ true
        → is_readable caller.now x ≡ true
        → authorize caller (some x) l ≡ ok (x, l)
    shown_to e y = rw (e, y) refl

module _ (caller : Caller) (content_id : String) (t : Table)
    (relations : List ContentRelation) where
  load_iff :
      (r : ContentRecord)
      → ((shown : List ContentRecord)
          → load_authorized caller content_id t relations ≡ ok (r, shown)
          → MayLoad caller content_id t r × All (λ x. is_shown caller x ≡ true) shown)
        × (MayLoad caller content_id t r
            → load_authorized caller content_id t relations
              ≡ ok (r, targets caller t (for_source 32 content_id relations)))
  unfolding load_authorized require_owner
  load_iff r = (loaded, loads)
    where
      no_scope :
          require_scope caller.scopes "content:read" ≡ false
          → load_authorized caller content_id t relations ≡ raised ContentError.scope_denied
      no_scope n = rw (n) refl

      no_id :
          require_scope caller.scopes "content:read" ≡ true
          → is_content_id content_id ≡ false
          → load_authorized caller content_id t relations ≡ raised ContentError.not_found
      no_id s n = rw (s, n) refl

      asked :
          require_scope caller.scopes "content:read" ≡ true
          → is_content_id content_id ≡ true
          → load_authorized caller content_id t relations
            ≡ authorize caller
                (get content_id t)
                (targets caller t (for_source 32 content_id relations))
      asked s i = rw (s, i) refl

      loaded :
          (shown : List ContentRecord)
          → load_authorized caller content_id t relations ≡ ok (r, shown)
          → MayLoad caller content_id t r × All (λ x. is_shown caller x ≡ true) shown
      loaded shown h = elim (Bool-cases (require_scope caller.scopes "content:read")) [
        | inr n ↦ cc (h, no_scope n)
        | inl s ↦ elim (Bool-cases (is_content_id content_id)) [
          | inr n ↦ cc (h, no_id s n)
          | inl i ↦
              let checked =
                authorize-ok caller (get content_id t)
                  (targets caller t (for_source 32 content_id relations)) shown r
                  (sym (asked s i) ∙ h) in
              (
                record {
                  scope = s;
                  id = i;
                  found = checked.0;
                  owner = checked.2;
                  readable = checked.3;
                },
                subst (All (λ x. is_shown caller x ≡ true)) checked.1
                    (targets-All caller t (for_source 32 content_id relations)),
              )
        ]
      ]

      loads :
          MayLoad caller content_id t r
          → load_authorized caller content_id t relations
            ≡ ok (r, targets caller t (for_source 32 content_id relations))
      loads m =
          rw
            (
              m.scope,
              m.id,
              m.found,
              authorize,
              require_owner,
              (eq_iff caller.principal_id r.content.owner_principal_id).1 (sym m.owner),
              m.readable,
            )
            refl

  -- When a Content is loaded, the caller has the scope, the id is well formed, and the Content is the
  -- caller's, available and not expired; with it come only contents that are the caller's, available
  -- and not expired.
  pub load_authorized-MayLoad :
      (r : ContentRecord) (shown : List ContentRecord)
      → load_authorized caller content_id t relations ≡ ok (r, shown)
      → MayLoad caller content_id t r × All (λ x. is_shown caller x ≡ true) shown
  load_authorized-MayLoad r shown h = (load_iff r).0 shown h

  -- And such a Content is loaded.
  pub MayLoad-load_authorized :
      (r : ContentRecord)
      → MayLoad caller content_id t r
      → load_authorized caller content_id t relations
        ≡ ok (r, targets caller t (for_source 32 content_id relations))
  MayLoad-load_authorized r m = (load_iff r).1 m
