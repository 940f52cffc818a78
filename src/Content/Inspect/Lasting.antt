-- ===== src/Content/Inspect/Lasting.antt =====
-- application/content/service.py: what `inspect` returns is what the table keeps.
use web_access_mcp_server.Base.{
  ◌≡◌, refl, sym, ap, subst, ◌∙◌, ◌⊎◌, inl, inr, ℕ, String, Bool, not, ◌&&◌, is_none, map, Option,
  none, some, List, [], ◌∷◌, if◌then◌else◌, any, Bool-cases, Option-cases,
}
use web_access_mcp_server.Base.Effects.{Result, ok, raised}
use web_access_mcp_server.Common.Auth.{require_scope, require_owner}
use web_access_mcp_server.Content.Model.{available, state_is, is_content_id}
use web_access_mcp_server.Content.Repository.{
  ContentRecord, Table, Inspection, rows_of, get, first_row, save_inspection, update_where, is_hit,
  change_hit, at_revision, inspected_row, Change, inspects, apply, apply_all,
}
use web_access_mcp_server.Content.Repository.Tracking.{apply_all-Follows}
use web_access_mcp_server.Content.Access.{ContentError, Caller}
use web_access_mcp_server.Content.Inspect.{
  Inspector, examine, of_row, saved_or_winner, persist, inspect_row, inspect_found, inspect_with,
  inspect,
}

-- one row has the id
abbrev One : String → Table → Type 0
One id t = (r : ContentRecord) × (rows_of id t ≡ r ∷ [])

-- one row has the id, with the inspection
abbrev pub Keeps : String → Inspection → Table → Type 0
Keeps id i t = (r : ContentRecord) × ((rows_of id t ≡ r ∷ []) × (r.inspection ≡ some i))

-- what a run returns is kept by the table that it leaves
abbrev Kept : String → Result ContentError Inspection × Table → Type 0
Kept id (ok i, t) = Keeps id i t
Kept id (raised e, t) = Unit

One-apply_all : (id : String) (t : Table) (cs : List Change) → One id t → One id (apply_all t cs)
One-apply_all id t cs (r, h) = let later = apply_all-Follows id t r cs h in (later.0, later.1)

-- the only row of an id is the one that `get` returns
get-One : (id : String) (t : Table) (r : ContentRecord) → rows_of id t ≡ r ∷ [] → get id t ≡ some r
unfolding get
get-One id t r h = ap first_row h

-- the saving keeps the rows apart
inspects-One :
    (now : ℕ) (id : String) (n : ℕ) (i : Inspection) (t : Table)
    → One id t
    → One id (save_inspection now id n i t).1
unfolding apply_all apply
inspects-One now id n i t one = One-apply_all id t (inspects now id n i ∷ []) one

-- the saving returns the row that it leaves
saved-get :
    (now : ℕ) (id : String) (n : ℕ) (i : Inspection) (t : Table) (s : ContentRecord)
    → (save_inspection now id n i t).0 ≡ some s
    → get id (save_inspection now id n i t).1 ≡ some s
unfolding save_inspection update_where
saved-get now id n i t s h =
    elim (Bool-cases (any (is_hit id (λ r. at_revision available n r && is_none r.inspection)) t)) [
      | inl e ↦ subst (λ b. saved_from b ≡ some s → get_from b ≡ some s) (sym e) (λ q. q) h
      | inr e ↦ subst (λ b. saved_from b ≡ some s → get_from b ≡ some s) (sym e) (λ q. cc q) h
    ]
  where
    written : Table
    written =
        map
          (change_hit (is_hit id (λ r. at_revision available n r && is_none r.inspection))
            (inspected_row now n i))
          t

    result_of : Bool → Option ContentRecord × Table
    result_of b = if b then (get id written, written) else (none, t)

    saved_from : Bool → Option ContentRecord
    saved_from b = (result_of b).0

    get_from : Bool → Option ContentRecord
    get_from b = get id (result_of b).1

row-Kept :
    (env : Inspector) (id : String) (t : Table) (r : ContentRecord)
    → rows_of id t ≡ r ∷ []
    → Kept id (of_row env (some r), t)
row-Kept env id t r h = elim (Option-cases r.inspection) [
  | inl e ↦ rw e tt
  | inr (i, e) ↦ rw e (r, (h, e))
]

get-Kept :
    (env : Inspector) (id : String) (t : Table) → One id t → Kept id (of_row env (get id t), t)
get-Kept env id t (r, h) = rw (get-One id t r h) (row-Kept env id t r h)

saved_or_winner-Kept :
    (env : Inspector) (id : String) (saved : Option ContentRecord) (t : Table)
    → One id t
    → ((s : ContentRecord) → saved ≡ some s → get id t ≡ some s)
    → Kept id (saved_or_winner env id (saved, t))
saved_or_winner-Kept env id (some s) t one back =
    subst (λ o. Kept id (of_row env o, t)) (back s refl) (get-Kept env id t one)
saved_or_winner-Kept env id none t one back =
    get-Kept env id (apply_all t env.after_refusal) (One-apply_all id t env.after_refusal one)

persist-Kept :
    (env : Inspector) (id : String) (r : ContentRecord) (t : Table)
    (found : Result ContentError Inspection)
    → One id t
    → Kept id (persist env id r t found)
unfolding persist
persist-Kept env id r t (raised e) one = tt
persist-Kept env id r t (ok i) one =
    saved_or_winner-Kept env id
      (save_inspection env.now id r.content.revision i (apply_all t env.before_saving)).0
      (save_inspection env.now id r.content.revision i (apply_all t env.before_saving)).1
      (saved-One (One-apply_all id t env.before_saving one))
      (saved-get env.now id r.content.revision i (apply_all t env.before_saving))
  where
    saved-One :
        One id (apply_all t env.before_saving)
        → One id (save_inspection env.now id r.content.revision i (apply_all t env.before_saving)).1
    saved-One o = inspects-One env.now id r.content.revision i (apply_all t env.before_saving) o

inspect_row-Kept :
    (env : Inspector) (identify : List ℕ → ContentRecord → Result ContentError Inspection)
    (id : String) (r : ContentRecord) (t : Table) (before : Option Inspection) (key : Option String)
    → rows_of id t ≡ r ∷ []
    → r.inspection ≡ before
    → Kept id (inspect_row env identify id r t before key)
unfolding inspect_row
inspect_row-Kept env identify id r t (some i) none h e = tt
inspect_row-Kept env identify id r t none none h e = tt
inspect_row-Kept env identify id r t (some i) (some key) h e = (r, (h, e))
inspect_row-Kept env identify id r t none (some key) h e =
    persist-Kept env id r t (examine env identify r key) (r, h)

inspect_found-Kept :
    (env : Inspector) (caller : Caller)
    (identify : List ℕ → ContentRecord → Result ContentError Inspection) (id : String) (t : Table)
    (r : ContentRecord)
    → rows_of id t ≡ r ∷ []
    → Kept id (inspect_found env caller identify id t (some r))
unfolding inspect_found
inspect_found-Kept env caller identify id t r h =
    elim (Bool-cases (not (require_owner caller.principal_id r.content.owner_principal_id))) [
      | inl e ↦ rw e tt
      | inr e ↦ elim (Bool-cases (not (state_is r.content.state available))) [
        | inl e' ↦ rw (e, e') tt
        | inr e' ↦
            rw (e, e') (inspect_row-Kept env identify id r t r.inspection r.storage_key h refl)
      ]
    ]

inspect_with-Kept :
    (env : Inspector) (caller : Caller) (id : String) (t : Table) (r : ContentRecord)
    (identify : Option (List ℕ → ContentRecord → Result ContentError Inspection))
    → rows_of id t ≡ r ∷ []
    → Kept id (inspect_with env caller id t identify)
inspect_with-Kept env caller id t r none h = tt
inspect_with-Kept env caller id t r (some identify) h = elim (Bool-cases (not (is_content_id id))) [
  | inl e ↦ rw e tt
  | inr e ↦ rw (e, get-One id t r h) (inspect_found-Kept env caller identify id t r h)
]

inspect-Kept :
    (env : Inspector) (caller : Caller) (id : String) (t : Table) (r : ContentRecord)
    → rows_of id t ≡ r ∷ []
    → Kept id (inspect env caller id t)
unfolding inspect
inspect-Kept env caller id t r h =
    elim (Bool-cases (not (require_scope caller.scopes "content:read"))) [
      | inl e ↦ rw e tt
      | inr e ↦ rw e (inspect_with-Kept env caller id t r env.identify h)
    ]

-- What has an inspection has it after any writes.
Keeps-apply_all :
    (id : String) (i : Inspection) (t : Table) (cs : List Change)
    → Keeps id i t
    → Keeps id i (apply_all t cs)
Keeps-apply_all id i t cs (r, (h, e)) =
    let later = apply_all-Follows id t r cs h in
    (later.0, (later.1, kept later.0 later.2.inspection))
  where
    kept :
        (r' : ContentRecord)
        → (r.inspection ≡ none) ⊎ (r'.inspection ≡ r.inspection)
        → r'.inspection ≡ some i
    kept r' (inl n) = cc (n, e)
    kept r' (inr q) = q ∙ e

-- If one row has the id, then what `inspect` returns is what the table keeps: after any writes that
-- follow, whatever tasks came between its sessions and whoever saved first, one row has the id, and
-- its inspection is the one that was returned.
pub inspect-Keeps :
    (env : Inspector) (caller : Caller) (id : String) (t after : Table) (r : ContentRecord)
    (i : Inspection) (cs : List Change)
    → rows_of id t ≡ r ∷ []
    → inspect env caller id t ≡ (ok i, after)
    → Keeps id i (apply_all after cs)
inspect-Keeps env caller id t after r i cs one h =
    Keeps-apply_all id i after cs (subst (Kept id) h (inspect-Kept env caller id t r one))
