-- ===== src/Content/Storage/Publish.antt =====
-- application/content/service.py and maintenance.py: the steps that publish a staged Content under
-- the lock of its final key.
use web_access_mcp_server.Base.{
  ℕ, ◌≡◌, inl, inr, refl, sym, ap, subst, ◌∙◌, String, true, false, some, [], ◌∷◌, select, All,
  All-mono, str_eq, Bool-cases, arith, select-true, select-false,
}
use web_access_mcp_server.Base.Effects.{ok}
use web_access_mcp_server.Content.Repository.{
  ContentRecord, Table, has_id, rows_of, is_hit, published_row, publishable, publish, publishes,
  apply,
}
use web_access_mcp_server.Content.Repository.Versions.{Follows}
use web_access_mcp_server.Content.Repository.Tracking.{Only}
use web_access_mcp_server.Content.Repository.Rows.{update_where-All}
use web_access_mcp_server.Content.Repository.Unique.{apply-Unique}
use web_access_mcp_server.Content.Storage.{
  StoredBlob, stat, final_of, Session, idle, collecting, cleared, publishing, observed, World,
  commit_final,
}
use web_access_mcp_server.Content.Storage.Sound.{
  Stored, Free, Tracked, SessionOk, Sound, SessionOk-mono, update-SessionOk, apply-Tracked,
}
use web_access_mcp_server.Content.Storage.Blobs.{different, All-both}

-- what a staged row is finalized to
pub final-Staged :
    (r : ContentRecord) (f : StoredBlob)
    → final_of r ≡ some f
    → (r.content.sha256 ≡ some f.sha256) × (r.content.size_bytes ≡ some f.size)
unfolding final_of
final-Staged r f h = ground arith

-- The rows of an id are its one row.
Only-All :
    (id : String) (r : ContentRecord) (t : Table)
    → Only id r t
    → All (λ x. has_id id x ≡ true → x ≡ r) t
unfolding rows_of
Only-All id r t h = all_of t (r ∷ []) h (refl, tt)
  where
    all_of :
        (u : Table) (l : Table)
        → select (has_id id) u ≡ l
        → All (λ x. x ≡ r) l
        → All (λ x. has_id id x ≡ true → x ≡ r) u
    all_of [] l e all = tt
    all_of (x ∷ u) l e all = elim (Bool-cases (has_id id x)) [
      | inl y ↦
          let l_is = subst (All (λ z. z ≡ r)) (sym e ∙ select-true (has_id id) x u y) all in
          ((λ _. l_is.0), all_of u (select (has_id id) u) refl l_is.1)
      | inr n ↦ ((λ y. cc (n, y)), all_of u l (sym (select-false (has_id id) x u n) ∙ e) all)
    ]

-- A later version of the same revision is the same row.
same_revision :
    (r r' : ContentRecord) → Follows r r' → r'.content.revision ≡ r.content.revision → r' ≡ r
same_revision r r' f e = elim f.version [ inl s ↦ s | inr l ↦ ground arith ]

publish_hit :
    (id : String) (n : ℕ) (r : ContentRecord)
    → is_hit id (publishable n) r ≡ true
    → (has_id id r ≡ true) × (r.content.revision ≡ n)
unfolding is_hit
publish_hit id n r h = ground arith

-- A published row is the row that the task has seen, so its blob is the blob that the task has
-- verified.
published_Stored :
    (w : World) (key : String) (now : ℕ) (r : ContentRecord) (f : StoredBlob)
    → SessionOk w.store w.table key (observed r f)
    → All (Stored w.store) w.table
    → All (Stored w.store) (publish now r.content.content_id r.content.revision key w.table).1
unfolding publish published_row
published_Stored w key now r f h rows =
    update_where-All (λ x. Stored w.store x × (has_id r.content.content_id x ≡ true → x ≡ h.0.0))
      (Stored w.store) (λ x p. p.0) r.content.content_id (publishable r.content.revision)
      (published_row now r.content.revision key) published w.table
      (All-both (Stored w.store) (λ x. has_id r.content.content_id x ≡ true → x ≡ h.0.0) w.table
        rows (Only-All r.content.content_id h.0.0 w.table h.0.1))
  where
    published :
        (x : ContentRecord)
        → is_hit r.content.content_id (publishable r.content.revision) x ≡ true
        → Stored w.store x × (has_id r.content.content_id x ≡ true → x ≡ h.0.0)
        → Stored w.store (published_row now r.content.revision key x)
    published x hit p =
        let at = publish_hit r.content.content_id r.content.revision x hit in
        let now_is = p.1 at.0 in
        let same =
          same_revision r h.0.0 h.0.2
            (sym (ap (λ (y : ContentRecord). y.content.revision) now_is) ∙ at.1) in
        let x_is = now_is ∙ same in
        let staged = final-Staged r f h.1 in
        inr (
          f,
          ap some (sym h.2),
          subst (λ k. stat w.store k ≡ ok (some f)) (sym h.2) h.3,
          ap (λ (y : ContentRecord). y.content.sha256) x_is ∙ staged.0,
          ap (λ (y : ContentRecord). y.content.size_bytes) x_is ∙ staged.1,
        )

-- A publication leaves the rows of other keys.
published-Free :
    (key k now : _) (id : String) (n : ℕ) (t : Table)
    → str_eq k key ≡ false
    → All (Free k) t
    → All (Free k) (publish now id n key t).1
unfolding publish published_row
published-Free key k now id n t e h =
    update_where-All (Free k) (Free k) (λ x p. p) id (publishable n) (published_row now n key)
      (λ x _ _. rw (different k key e) refl) t h

pub commit-Sound :
    (w : World) (now : ℕ) (key : String) (x : Session)
    → SessionOk w.store w.table key x
    → Sound w
    → Sound (commit_final now key x w)
unfolding commit_final apply
commit-Sound w now key (observed r f) s h =
    let t = (publish now r.content.content_id r.content.revision key w.table).1 in
    let tracked =
      apply-Tracked w.table (publishes now r.content.content_id r.content.revision key) in
    record {
      unique =
          apply-Unique w.table (publishes now r.content.content_id r.content.revision key) h.unique;
      rows = published_Stored w key now r f s h.rows;
      seen = All-mono (Tracked w.table) (Tracked t) w.seen tracked h.seen;
      sessions = update-SessionOk w.store t key idle w.sessions tt (λ k e.
          SessionOk-mono w.store w.store w.table t k tracked (λ b y. y)
            (published-Free key k now r.content.content_id r.content.revision w.table e)
            (w.sessions k) (h.sessions k));
    }
commit-Sound w now key idle s h = h
commit-Sound w now key collecting s h = h
commit-Sound w now key cleared s h = h
commit-Sound w now key (publishing r f) s h = h
