-- ===== src/Content/Repository/Candidates.antt =====
-- infrastructure/database/content.py: the query for the blobs to collect.
use web_access_mcp_server.Base.{
  ℕ, zero, suc, ◌≡◌, ◌⊎◌, refl, inl, inr, ap, ◌∙◌, String, Bool, true, false, ◌&&◌, ◌||◌, none,
  List, [], ◌∷◌, All, any, take, select-any, is_some, is_none, arith, leb,
}
use web_access_mcp_server.Content.Model.{
  ContentState, creating, available, failed, expired, deleted, state_is,
}
use web_access_mcp_server.Content.Repository.{
  ContentRecord, Table, new_row, is_hit, at_revision, staged_row, set_staged, published_row,
  publishable, publish, failed_row, mark_failed, inspected_row, save_inspection, Change, adds,
  claims, stages, publishes, fails, inspects, apply, apply_all, is_candidate, distinct_keys,
  gc_storage_candidates,
}
use web_access_mcp_server.Content.Repository.Rows.{update_where-All, add-All, claim-All}

-- a row without a storage key, or an available one
abbrev KeyOk : ContentRecord → Type 0
KeyOk r = (r.storage_key ≡ none) ⊎ (state_is r.content.state available ≡ true)

-- A creating row has no storage key.
creating_key :
    (id : String) (n : ℕ) (r : ContentRecord)
    → is_hit id (at_revision creating n) r ≡ true
    → KeyOk r
    → r.storage_key ≡ none
unfolding is_hit
creating_key id n r h (inl e) = e
creating_key id n r h (inr a) = absurd (ground arith)

apply-KeyOk : (t : Table) (c : Change) → All KeyOk t → All KeyOk (apply t c)
unfolding apply set_staged publish mark_failed save_inspection new_row staged_row published_row
    failed_row inspected_row
apply-KeyOk t (adds c) h = add-All KeyOk c t (inl refl) h
apply-KeyOk t (claims c) h = claim-All KeyOk c t (inl refl) h
apply-KeyOk t (stages now id n key sha size) h =
    update_where-All KeyOk KeyOk (λ r k. k) id (at_revision creating n)
      (staged_row now n key sha size) (λ r hit k. k) t h
apply-KeyOk t (publishes now id n key) h =
    update_where-All KeyOk KeyOk (λ r k. k) id (publishable n) (published_row now n key)
      (λ r hit k. inr refl) t h
apply-KeyOk t (fails now id n code) h =
    update_where-All KeyOk KeyOk (λ r k. k) id (at_revision creating n) (failed_row now n code)
      (λ r hit k. inl (creating_key id n r hit k)) t h
apply-KeyOk t (inspects now id n i) h =
    update_where-All KeyOk KeyOk (λ r k. k) id
      (λ x. at_revision available n x && is_none x.inspection) (inspected_row now n i)
      (λ r hit k. k) t h

apply_all-KeyOk : (t : Table) (cs : List Change) → All KeyOk t → All KeyOk (apply_all t cs)
unfolding apply_all
apply_all-KeyOk t [] h = h
apply_all-KeyOk t (c ∷ cs) h = apply_all-KeyOk (apply t c) cs (apply-KeyOk t c h)

no_candidate : (older_than : ℕ) (t : Table) → All KeyOk t → any (is_candidate older_than) t ≡ false
no_candidate older_than [] h = refl
no_candidate older_than (r ∷ t) h = none_of (h.0) (no_candidate older_than t h.1)
  where
    not_available :
        (s : ContentState) (b c : Bool)
        → state_is s available ≡ true
        → ((state_is s failed || state_is s expired || state_is s deleted) && b && c) ≡ false
    not_available s b c e = ground arith

    no_key : (b c d : Bool) → d ≡ false → (b && c && d) ≡ false
    no_key b c d e = ground arith

    both : (b c : Bool) → b ≡ false → c ≡ false → (b || c) ≡ false
    both b c e e' = ground arith

    none_of :
        KeyOk r
        → any (is_candidate older_than) t ≡ false
        → (is_candidate older_than r || any (is_candidate older_than) t) ≡ false
    none_of (inl e) rest =
        both (is_candidate older_than r) (any (is_candidate older_than) t)
          (no_key
            (state_is r.content.state failed
              || state_is r.content.state expired
              || state_is r.content.state deleted)
            (leb r.updated_at older_than) (is_some r.storage_key) (ap is_some e))
          rest
    none_of (inr a) rest =
        both (is_candidate older_than r) (any (is_candidate older_than) t)
          (not_available r.content.state (leb r.updated_at older_than) (is_some r.storage_key) a)
          rest

-- After any writes to an empty table the query for blobs to collect finds none: of the rows that the
-- operations of the repository leave, only available ones have a storage key.
pub apply_all-gc_storage_candidates :
    (cs : List Change) (older_than limit : ℕ)
    → gc_storage_candidates older_than limit (apply_all [] cs) ≡ []
unfolding gc_storage_candidates distinct_keys
apply_all-gc_storage_candidates cs older_than limit =
    ap (λ l. take limit (distinct_keys l))
      (select-any (is_candidate older_than) (apply_all [] cs)
        (no_candidate older_than (apply_all [] cs) (apply_all-KeyOk [] cs tt)))
    ∙ take_none limit
  where
    take_none : (n : ℕ) → take {A = String} n [] ≡ []
    take_none zero = refl
    take_none (suc n) = refl
