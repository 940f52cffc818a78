-- ===== src/Content/Repository/Rows.antt =====
-- infrastructure/database/content.py: what the writes keep of every row of the table.
use web_access_mcp_server.Base.{
  ℕ, ◌≡◌, inl, inr, refl, String, Bool, true, false, ◌&&◌, [], ◌∷◌, map, any, All, All-mono,
  All-append, All-mono, Bool-cases, arith, is_none,
}
use web_access_mcp_server.Content.Model.{ContentState, creating, available, ContentObject, state_is}
use web_access_mcp_server.Content.Repository.{
  ContentRecord, Table, Inspection, new_row, add, claim_representation, is_hit, change_hit,
  update_where, conflicts, at_revision, staged_row, set_staged, failed_row, mark_failed,
  inspected_row, save_inspection, Change, adds, claims, stages, publishes, fails, inspects, apply,
  is_routine,
}

-- What writes keep of every row: it holds for a row that is not available, and the saving of an
-- inspection keeps it.
pub record Quiet (P : ContentRecord → Type 0) : Type 0 where
  pub hidden : (r : ContentRecord) → state_is r.content.state available ≡ false → P r
  pub inspected :
      (now n : ℕ) (i : Inspection) (r : ContentRecord) → P r → P (inspected_row now n i r)

module _ (P Q : ContentRecord → Type 0) (weaker : (r : ContentRecord) → P r → Q r) where
  map-All :
      (p : ContentRecord → Bool) (change : ContentRecord → ContentRecord)
      → ((r : ContentRecord) → p r ≡ true → P r → Q (change r))
      → (t : Table) → All P t
      → All Q (map (change_hit p change) t)
  map-All p change f [] h = tt
  map-All p change f (r ∷ t) h = (head, map-All p change f t h.1)
    where
      head : Q (change_hit p change r)
      head = elim (Bool-cases (p r)) [ inl e ↦ rw (e) (f r e h.0) | inr e ↦ rw (e) (weaker r h.0) ]

  pub update_where-All :
      (id : String) (guard : ContentRecord → Bool) (change : ContentRecord → ContentRecord)
      → ((r : ContentRecord) → is_hit id guard r ≡ true → P r → Q (change r))
      → (t : Table) → All P t
      → All Q (update_where id guard change t).1
  unfolding update_where
  update_where-All id guard change f t h = elim (Bool-cases (any (is_hit id guard) t)) [
    | inl e ↦ rw (e) (map-All (is_hit id guard) change f t h)
    | inr e ↦ rw (e) (All-mono P Q t weaker h)
  ]

module _ (P : ContentRecord → Type 0) where
  pub add-All : (c : ContentObject) (t : Table) → P (new_row c) → All P t → All P (apply t (adds c))
  unfolding apply add
  add-All c t n h = elim (Bool-cases (conflicts c t)) [
    | inl e ↦ rw (apply, add, e) h
    | inr e ↦ rw (apply, add, e) (All-append P t (new_row c ∷ []) h (n, tt))
  ]

  pub claim-All :
      (c : ContentObject) (t : Table) → P (new_row c) → All P t → All P (claim_representation c t).1
  unfolding claim_representation
  claim-All c t n h = elim (Bool-cases (is_none c.source_content_id)) [
    | inl e ↦ rw (e) h
    | inr e ↦ elim (Bool-cases (conflicts c t)) [
      | inl e' ↦ rw (e, e') h
      | inr e' ↦ rw (e, e') (All-append P t (new_row c ∷ []) h (n, tt))
    ]
  ]

creating_hidden : (s : ContentState) → state_is s creating ≡ true → state_is s available ≡ false
creating_hidden s h = ground arith

at_creating :
    (id : String) (n : ℕ) (r : ContentRecord)
    → is_hit id (at_revision creating n) r ≡ true
    → state_is r.content.state available ≡ false
unfolding is_hit
at_creating id n r h = ground arith

module _ (P : ContentRecord → Type 0) (quiet : Quiet P) where
  -- Every write but a publication keeps it.
  pub apply-All : (t : Table) (c : Change) → is_routine c ≡ true → All P t → All P (apply t c)
  unfolding apply set_staged mark_failed save_inspection new_row staged_row failed_row
  apply-All t (adds c) e h = add-All P c t (quiet.hidden (new_row c) (creating_hidden c.state e)) h
  apply-All t (claims c) e h =
      claim-All P c t (quiet.hidden (new_row c) (creating_hidden c.state e)) h
  apply-All t (stages now id n key sha size) e h =
      update_where-All P P (λ r p. p) id (at_revision creating n) (staged_row now n key sha size)
        (λ r hit _. quiet.hidden (staged_row now n key sha size r) (at_creating id n r hit)) t h
  apply-All t (publishes now id n key) e h = cc (e)
  apply-All t (fails now id n code) e h =
      update_where-All P P (λ r p. p) id (at_revision creating n) (failed_row now n code)
        (λ r hit _. quiet.hidden (failed_row now n code r) refl) t h
  apply-All t (inspects now id n i) e h =
      update_where-All P P (λ r p. p) id (λ x. at_revision available n x && is_none x.inspection)
        (inspected_row now n i) (λ r hit p. quiet.inspected now n i r p) t h
