-- ===== src/Content/Repository/Tracking.antt =====
-- infrastructure/database/content.py: a row followed through any series of writes.
use web_access_mcp_server.Base.{
  ◌≡◌, inl, inr, ap, subst, eq_iff, ◌∙◌, String, Bool, true, false, ◌&&◌, List, [], ◌∷◌, ◌++◌, map,
  select, any, str_eq, Bool-cases, or_left, select-map, select-append, select-any, select-false,
  is_none,
}
use web_access_mcp_server.Content.Model.{creating, available, ContentObject}
use web_access_mcp_server.Content.Repository.{
  ContentRecord, Table, has_id, rows_of, new_row, add, claim_representation, is_second, is_hit,
  change_hit, update_where, at_revision, staged_row, set_staged, published_row, publishable,
  publish, failed_row, mark_failed, inspected_row, save_inspection, Change, adds, claims, stages,
  publishes, fails, inspects, apply, apply_all, conflicts,
}
use web_access_mcp_server.Content.Repository.Versions.{
  Follows, Identity, Follows-refl, Follows-trans, staged-Follows, published-Follows, failed-Follows,
  inspected-Follows,
}

-- the only row of an id
abbrev pub Only : String → ContentRecord → Table → Type 0
Only id r t = rows_of id t ≡ r ∷ []

-- the only row of an id is now a later version of the row
abbrev pub Kept : String → ContentRecord → Table → Type 0
Kept id r t = (r' : ContentRecord) × (Only id r' t) × Follows r r'

change_hit-Follows :
    (p : ContentRecord → Bool) (change : ContentRecord → ContentRecord)
    → ((x : ContentRecord) → p x ≡ true → Follows x (change x))
    → (x : ContentRecord) → Follows x (change_hit p change x)
change_hit-Follows p change f x = elim (Bool-cases (p x)) [
  | inl e ↦ rw (e) (f x e)
  | inr e ↦ rw (e) (Follows-refl x)
]

Kept-refl : (id : String) (r : ContentRecord) (t : Table) → Only id r t → Kept id r t
Kept-refl id r t h = (r, h, Follows-refl r)

-- No change of a row changes its id.
pub same_id :
    (id : String) (guard : ContentRecord → Bool) (change : ContentRecord → ContentRecord)
    → ((x : ContentRecord) → is_hit id guard x ≡ true → Follows x (change x))
    → (j : String) (x : ContentRecord)
    → has_id j (change_hit (is_hit id guard) change x) ≡ has_id j x
same_id id guard change f j x =
    ap (λ (i : Identity). str_eq i.content_id j)
      (change_hit-Follows (is_hit id guard) change f x).identity

update_where-Kept :
    (id : String) (guard : ContentRecord → Bool) (change : ContentRecord → ContentRecord)
    → ((x : ContentRecord) → is_hit id guard x ≡ true → Follows x (change x))
    → (j : String) (t : Table) (r : ContentRecord) → Only j r t
    → Kept j r (update_where id guard change t).1
unfolding update_where rows_of
update_where-Kept id guard change f j t r h = elim (Bool-cases (any (is_hit id guard) t)) [
  | inl e ↦ rw (e) (
    change_hit (is_hit id guard) change r,
    select-map (has_id j) (change_hit (is_hit id guard) change) t (same_id id guard change f j)
        ∙ ap (map (change_hit (is_hit id guard) change)) h,
    change_hit-Follows (is_hit id guard) change f r,
  )
  | inr e ↦ rw (e) (Kept-refl j r t h)
]

-- A new row has another id.
added-Kept :
    (c : ContentObject) (j : String) (t : Table) (r : ContentRecord)
    → any (has_id c.content_id) t ≡ false
    → Only j r t
    → Kept j r (t ++ (new_row c ∷ []))
unfolding rows_of new_row
added-Kept c j t r e h = elim (Bool-cases (has_id j (new_row c))) [
  | inl s ↦
      let j_is = (eq_iff (c.content_id) j).0 s in
      cc (subst (λ i. select (has_id i) t ≡ []) j_is (select-any (has_id c.content_id) t e), h)
  | inr n ↦ (
    r,
    select-append (has_id j) t (new_row c ∷ [])
        ∙ ap (λ l. select (has_id j) t ++ l) (select-false (has_id j) (new_row c) [] n)
        ∙ ap (λ l. l ++ []) h,
    Follows-refl r,
  )
]

add-Kept :
    (c : ContentObject) (j : String) (t : Table) (r : ContentRecord)
    → Only j r t
    → Kept j r (apply t (adds c))
unfolding apply add
add-Kept c j t r h = elim (Bool-cases (conflicts c t)) [
  | inl e ↦ rw (apply, add, e) (Kept-refl j r t h)
  | inr e ↦
      rw (apply, add, e)
        (added-Kept c j t r (or_left (any (has_id c.content_id) t) (is_second c t) e) h)
]

claim-Kept :
    (c : ContentObject) (j : String) (t : Table) (r : ContentRecord)
    → Only j r t
    → Kept j r (claim_representation c t).1
unfolding claim_representation
claim-Kept c j t r h = elim (Bool-cases (is_none c.source_content_id)) [
  | inl e ↦ rw (e) (Kept-refl j r t h)
  | inr e ↦ elim (Bool-cases (conflicts c t)) [
    | inl e' ↦ rw (e, e') (Kept-refl j r t h)
    | inr e' ↦
        rw (e, e') (added-Kept c j t r (or_left (any (has_id c.content_id) t) (is_second c t) e') h)
  ]
]

-- The row of an id is kept by every write.
pub apply-Kept :
    (j : String) (t : Table) (r : ContentRecord) (c : Change) → Only j r t → Kept j r (apply t c)
unfolding apply set_staged publish mark_failed save_inspection
apply-Kept j t r (adds c) h = add-Kept c j t r h
apply-Kept j t r (claims c) h = claim-Kept c j t r h
apply-Kept j t r (stages now id n key sha size) h =
    update_where-Kept id (at_revision creating n) (staged_row now n key sha size)
      (λ x. staged-Follows id n x now key sha size) j t r h
apply-Kept j t r (publishes now id n key) h =
    update_where-Kept id (publishable n) (published_row now n key)
      (λ x. published-Follows id n x now key) j t r h
apply-Kept j t r (fails now id n code) h =
    update_where-Kept id (at_revision creating n) (failed_row now n code)
      (λ x. failed-Follows id n x now code) j t r h
apply-Kept j t r (inspects now id n i) h =
    update_where-Kept id (λ x. at_revision available n x && is_none x.inspection)
      (inspected_row now n i) (λ x. inspected-Follows id n x now i) j t r h

-- If one row has the id, then after any series of writes one row has it, and that row is a later
-- version of the first: the same owner, kind, source and provenance, the same version or a higher
-- revision, a state that the transitions allow; an available content keeps its state, hash, size
-- and storage key, and an inspection that is there stays.
pub apply_all-Follows :
    (j : String) (t : Table) (r : ContentRecord) (cs : List Change)
    → rows_of j t ≡ r ∷ []
    → (r' : ContentRecord) × (rows_of j (apply_all t cs) ≡ r' ∷ []) × Follows r r'
unfolding apply_all
apply_all-Follows j t r [] h = Kept-refl j r t h
apply_all-Follows j t r (c ∷ cs) h =
    let one = apply-Kept j t r c h in
    let rest = apply_all-Follows j (apply t c) one.0 cs one.1 in
    (rest.0, rest.1, Follows-trans r one.0 rest.0 one.2 rest.2)
