-- ===== src/Content/Repository/Valid.antt =====
-- infrastructure/database/content.py and domain/content/models.py: every row can be read as a
-- `ContentObject`.
use web_access_mcp_server.Base.{
  ℕ, ◌≡◌, ◌+◌, refl, String, Bool, true, false, not, ◌&&◌, Option, none, some, List, [], ◌∷◌, All,
  arith, leb, is_none, is_some,
}
use web_access_mcp_server.Content.Model.{creating, available, state_is, is_valid, is_sha256}
use web_access_mcp_server.Content.Repository.{
  ContentRecord, Table, Inspection, new_row, is_hit, at_revision, staged_row, set_staged,
  published_row, publishable, publish, failed_row, mark_failed, inspected_row, save_inspection,
  Change, adds, claims, stages, publishes, fails, inspects, apply, apply_all,
}
use web_access_mcp_server.Content.Repository.Rows.{update_where-All, add-All, claim-All}

abbrev Valid : ContentRecord → Type 0
Valid r = is_valid r.content ≡ true

-- the checks of `is_valid` that a write changes, among the others
staged_checks :
    (owner rev rev' sha hex size av prov own params : Bool)
    → (owner && rev && sha && size && av && prov && own && params) ≡ true
    → rev' ≡ true
    → hex ≡ true
    → (shown : Bool)
    → (owner && rev' && hex && true && not (shown && false) && prov && own && params) ≡ true
staged_checks owner rev rev' sha hex size av prov own params h e e' shown = ground arith

published_checks :
    (owner rev rev' sha size av av' prov own params : Bool)
    → (owner && rev && sha && size && av && prov && own && params) ≡ true
    → rev' ≡ true
    → av' ≡ true
    → (owner && rev' && sha && size && av' && prov && own && params) ≡ true
published_checks owner rev rev' sha size av av' prov own params h e e' = ground arith

revised :
    (owner rev rev' sha size av prov own params : Bool)
    → (owner && rev && sha && size && av && prov && own && params) ≡ true
    → rev' ≡ true
    → (owner && rev' && sha && size && av && prov && own && params) ≡ true
revised owner rev rev' sha size av prov own params h e = ground arith

next_revision : (n : ℕ) → leb 1 (n + 1) ≡ true
next_revision n = ground arith

staged-Valid :
    (now n size : ℕ) (id key sha : String) (r : ContentRecord)
    → is_sha256 sha ≡ true
    → is_hit id (at_revision creating n) r ≡ true
    → Valid r
    → Valid (staged_row now n key sha size r)
unfolding is_valid staged_row is_hit
staged-Valid now n size id key sha r hex hit v =
    staged_checks _ _ _ _ _ _ _ _ _ _ v (next_revision n) hex (state_is r.content.state available)

published-Valid :
    (now n : ℕ) (id key : String) (r : ContentRecord)
    → is_hit id (publishable n) r ≡ true
    → Valid r
    → Valid (published_row now n key r)
unfolding is_valid published_row is_hit
published-Valid now n id key r hit v =
    published_checks _ _ _ _ _ _ _ _ _ _ v (next_revision n) (has_hash r.content.sha256 hit')
  where
    hit' : is_some r.content.sha256 ≡ true
    hit' = ground arith

    has_hash : (o : Option String) → is_some o ≡ true → not (is_none o) ≡ true
    has_hash none h = cc (h)
    has_hash (some x) h = refl

failed-Valid :
    (now n : ℕ) (id code : String) (r : ContentRecord) → Valid r → Valid (failed_row now n code r)
unfolding is_valid failed_row
failed-Valid now n id code r v = published_checks _ _ _ _ _ _ _ _ _ _ v (next_revision n) refl

inspected-Valid :
    (now n : ℕ) (i : Inspection) (r : ContentRecord) → Valid r → Valid (inspected_row now n i r)
unfolding is_valid inspected_row
inspected-Valid now n i r v = revised _ _ _ _ _ _ _ _ _ v (next_revision n)

-- what a write is given: a Content that is valid, or the hash of the staged bytes
abbrev pub IsSound : Change → Type 0
IsSound (adds c) = is_valid c ≡ true
IsSound (claims c) = is_valid c ≡ true
IsSound (stages now id n key sha size) = is_sha256 sha ≡ true
IsSound _ = Unit

apply-Valid : (t : Table) (c : Change) → IsSound c → All Valid t → All Valid (apply t c)
unfolding apply set_staged publish mark_failed save_inspection new_row
apply-Valid t (adds c) s h = add-All Valid c t s h
apply-Valid t (claims c) s h = claim-All Valid c t s h
apply-Valid t (stages now id n key sha size) s h =
    update_where-All Valid Valid (λ r v. v) id (at_revision creating n)
      (staged_row now n key sha size) (λ r hit v. staged-Valid now n size id key sha r s hit v) t h
apply-Valid t (publishes now id n key) s h =
    update_where-All Valid Valid (λ r v. v) id (publishable n) (published_row now n key)
      (λ r hit v. published-Valid now n id key r hit v) t h
apply-Valid t (fails now id n code) s h =
    update_where-All Valid Valid (λ r v. v) id (at_revision creating n) (failed_row now n code)
      (λ r hit v. failed-Valid now n id code r v) t h
apply-Valid t (inspects now id n i) s h =
    update_where-All Valid Valid (λ r v. v) id
      (λ x. at_revision available n x && is_none x.inspection) (inspected_row now n i)
      (λ r hit v. inspected-Valid now n i r v) t h

-- If every row is a valid Content, every Content that is added is valid and every staged hash is a
-- hash, then every row that any writes leave is a valid Content.
pub apply_all-is_valid :
    (t : Table) (cs : List Change)
    → All IsSound cs
    → All (λ r. is_valid r.content ≡ true) t
    → All (λ r. is_valid r.content ≡ true) (apply_all t cs)
unfolding apply_all
apply_all-is_valid t [] s h = h
apply_all-is_valid t (c ∷ cs) s h = apply_all-is_valid (apply t c) cs s.1 (apply-Valid t c s.0 h)
