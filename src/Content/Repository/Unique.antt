-- ===== src/Content/Repository/Unique.antt =====
-- infrastructure/database/content.py and alembic/versions/0003_content_core.py: the unique key on the
-- id of a content.
use web_access_mcp_server.Base.{
  ◌≤◌, ◌≡◌, inl, inr, sym, subst, eq_iff, ◌∙◌, String, Bool, true, false, ◌&&◌, some, [], ◌∷◌, ◌++◌,
  select, any, Bool-cases, or_left, arith, select-map, length, length-map, length-append,
  select-append, select-any, select-true, select-false, is_none,
}
use web_access_mcp_server.Content.Model.{creating, available, ContentObject}
use web_access_mcp_server.Content.Repository.{
  ContentRecord, Table, has_id, rows_of, get, new_row, add, claim_representation, is_second, is_hit,
  change_hit, update_where, at_revision, staged_row, set_staged, published_row, publishable,
  publish, failed_row, mark_failed, inspected_row, save_inspection, Change, adds, claims, stages,
  publishes, fails, inspects, apply, first_row, conflicts,
}
use web_access_mcp_server.Content.Repository.Versions.{
  Follows, staged-Follows, published-Follows, failed-Follows, inspected-Follows,
}
use web_access_mcp_server.Content.Repository.Tracking.{Only, same_id}

-- no id has two rows
abbrev pub Unique : Table → Type 0
Unique t = (id : String) → length (rows_of id t) ≤ 1

update_where-Unique :
    (id : String) (guard : ContentRecord → Bool) (change : ContentRecord → ContentRecord)
    → ((x : ContentRecord) → is_hit id guard x ≡ true → Follows x (change x))
    → (t : Table) → Unique t
    → Unique (update_where id guard change t).1
unfolding update_where rows_of
update_where-Unique id guard change f t u j = elim (Bool-cases (any (is_hit id guard) t)) [
  | inr e ↦ rw (e) (u j)
  | inl e ↦
      rw
        (
          e,
          select-map (has_id j) (change_hit (is_hit id guard) change) t
              (same_id id guard change f j),
          length-map (change_hit (is_hit id guard) change) (select (has_id j) t),
        )
        (u j)
]

added-Unique :
    (c : ContentObject) (t : Table)
    → any (has_id c.content_id) t ≡ false
    → Unique t
    → Unique (t ++ (new_row c ∷ []))
unfolding rows_of new_row
added-Unique c t e u j = elim (Bool-cases (has_id j (new_row c))) [
  | inl s ↦
      let j_is = (eq_iff (c.content_id) j).0 s in
      let old = subst (λ i. select (has_id i) t ≡ []) j_is (select-any (has_id c.content_id) t e) in
      rw (select-append (has_id j) t (new_row c ∷ []), old, select-true (has_id j) (new_row c) [] s)
        (omega arith)
  | inr n ↦
      rw
        (
          select-append (has_id j) t (new_row c ∷ []),
          select-false (has_id j) (new_row c) [] n,
          length-append (select (has_id j) t) [],
        )
        (omega (arith, u j))
]

add-Unique : (c : ContentObject) (t : Table) → Unique t → Unique (apply t (adds c))
unfolding apply add
add-Unique c t u = elim (Bool-cases (conflicts c t)) [
  | inl e ↦ rw (apply, add, e) u
  | inr e ↦
      rw (apply, add, e)
        (added-Unique c t (or_left (any (has_id c.content_id) t) (is_second c t) e) u)
]

claim-Unique : (c : ContentObject) (t : Table) → Unique t → Unique (claim_representation c t).1
unfolding claim_representation
claim-Unique c t u = elim (Bool-cases (is_none c.source_content_id)) [
  | inl e ↦ rw (e) u
  | inr e ↦ elim (Bool-cases (conflicts c t)) [
    | inl e' ↦ rw (e, e') u
    | inr e' ↦
        rw (e, e') (added-Unique c t (or_left (any (has_id c.content_id) t) (is_second c t) e') u)
  ]
]

-- Every write keeps the key.
pub apply-Unique : (t : Table) (c : Change) → Unique t → Unique (apply t c)
unfolding apply set_staged publish mark_failed save_inspection
apply-Unique t (adds c) u = add-Unique c t u
apply-Unique t (claims c) u = claim-Unique c t u
apply-Unique t (stages now id n key sha size) u =
    update_where-Unique id (at_revision creating n) (staged_row now n key sha size)
      (λ x. staged-Follows id n x now key sha size) t u
apply-Unique t (publishes now id n key) u =
    update_where-Unique id (publishable n) (published_row now n key)
      (λ x. published-Follows id n x now key) t u
apply-Unique t (fails now id n code) u =
    update_where-Unique id (at_revision creating n) (failed_row now n code)
      (λ x. failed-Follows id n x now code) t u
apply-Unique t (inspects now id n i) u =
    update_where-Unique id (λ x. at_revision available n x && is_none x.inspection)
      (inspected_row now n i) (λ x. inspected-Follows id n x now i) t u

selected :
    (p : ContentRecord → Bool) (t : Table) (r : ContentRecord) (l : Table)
    → select p t ≡ r ∷ l
    → p r ≡ true
selected p [] r l h = cc (h)
selected p (x ∷ t) r l h = elim (Bool-cases (p x)) [
  | inl e ↦ cc (e, sym (select-true p x t e) ∙ h)
  | inr e ↦ selected p t r l (sym (select-false p x t e) ∙ h)
]

-- The row that `get` returns is the only one of its id.
pub get-Only :
    (id : String) (t : Table) (r : ContentRecord)
    → Unique t
    → get id t ≡ some r
    → Only r.content.content_id r t
unfolding get rows_of
get-Only id t r u h =
    let only = one (select (has_id id) t) (u id) h in
    subst (λ i. select (has_id i) t ≡ r ∷ [])
      (sym ((eq_iff r.content.content_id id).0 (selected (has_id id) t r [] only))) only
  where
    one : (l : Table) → length l ≤ 1 → first_row l ≡ some r → l ≡ r ∷ []
    one [] le e = cc (e)
    one (x ∷ []) le e = cc (e)
    one (x ∷ y ∷ l) le e = absurd (omega (arith, le))
