-- ===== src/Content/Storage/Audit.antt =====
-- application/content/service.py and maintenance.py: the histories of the tasks, and the audit of the
-- available rows.
use web_access_mcp_server.Base.{
  ℕ, zero, suc, ◌≡◌, inl, inr, refl, ap, subst, eq_iff, ◌∙◌, String, true, false, not, ◌&&◌, Option,
  none, some, List, [], ◌∷◌, select, All, All-append, ◌==◌, ==_iff, str_eq, Bool-cases, leb, take,
  and_both, and_left, and_right, Option-cases, arith, select-true, select-false, same_text,
}
use web_access_mcp_server.Base.Effects.{Result, ok, raised}
use web_access_mcp_server.Content.Model.{available, state_is}
use web_access_mcp_server.Content.Repository.{ContentRecord, Table, rows_of, get, is_routine}
use web_access_mcp_server.Content.Repository.Versions.{Follows-refl}
use web_access_mcp_server.Content.Storage.{
  StoredBlob, Store, StoreError, stat, storage_key_of, same_blob, final_of, Session, idle,
  collecting, cleared, publishing, observed, World, Event, nth, is_idle, lock, lock_final,
  after_stat, stat_final, see, step, run, writes, reads, links, locks_final, stats, commits,
  locks_candidate, checks, removes, leaves, empty,
}
use web_access_mcp_server.Content.Repository.{available_for_audit, insert_row, by_update}
use web_access_mcp_server.Content.Repository.Unique.{get-Only}
use web_access_mcp_server.Content.Storage.Sound.{
  Stored, Tracked, SessionOk, Sound, enter-Sound, writes-Sound,
}
use web_access_mcp_server.Content.Storage.Blobs.{link-Sound, remove-Sound, check-Sound}
use web_access_mcp_server.Content.Storage.Publish.{commit-Sound}
use web_access_mcp_server.Content.Storage.{
  audit, audit_row, audit_stat, add_error, same_size, is_broken,
}

lock-Sound :
    (w : World) (key : String) (x : Session)
    → SessionOk w.store w.table key x
    → Sound w
    → Sound (lock key x w)
unfolding lock
lock-Sound w key x s h = elim (Bool-cases (is_idle (w.sessions key))) [
  | inl e ↦ rw (e) (enter-Sound w key x s h)
  | inr e ↦ rw (e) h
]

nth-All :
    (P : ContentRecord → Type 0) (n : ℕ) (t : Table) (r : ContentRecord)
    → All P t
    → nth n t ≡ some r
    → P r
nth-All P n [] r h e = cc (e)
nth-All P zero (x ∷ t) r h e = subst P (cc (e)) h.0
nth-All P (suc n) (x ∷ t) r h e = nth-All P n t r h.1 e

lock_final-Sound : (w : World) (n : ℕ) → Sound w → Sound (lock_final (nth n w.seen) w)
unfolding lock_final
lock_final-Sound w n h = elim (Option-cases (nth n w.seen)) [
  | inl e ↦ rw (e) h
  | inr r ↦ elim (Option-cases (final_of r.0)) [
    | inl e ↦ rw (r.1, lock_final, e) h
    | inr f ↦
        rw (r.1, lock_final, f.1)
          (lock-Sound w (f.0).key (publishing r.0 f.0)
            (nth-All (Tracked w.table) n w.seen r.0 h.seen r.1, f.1, refl) h)
  ]
]

same_blob_lem : (a b : StoredBlob) → same_blob a b ≡ true → a ≡ b
unfolding same_blob
same_blob_lem a b h = λ i. record {
  key = (eq_iff a.key b.key).0 keys i;
  sha256 = (eq_iff a.sha256 b.sha256).0 hashes i;
  size = (==_iff a.size b.size).0 sizes i;
}
  where
    texts : (str_eq a.key b.key && str_eq a.sha256 b.sha256) ≡ true
    texts = and_left (str_eq a.key b.key && str_eq a.sha256 b.sha256) (a.size == b.size) h

    keys : str_eq a.key b.key ≡ true
    keys = and_left (str_eq a.key b.key) (str_eq a.sha256 b.sha256) texts

    hashes : str_eq a.sha256 b.sha256 ≡ true
    hashes = and_right (str_eq a.key b.key) (str_eq a.sha256 b.sha256) texts

    sizes : (a.size == b.size) ≡ true
    sizes = and_right (str_eq a.key b.key && str_eq a.sha256 b.sha256) (a.size == b.size) h

-- A task that goes on after `stat` has seen its blob.
after_stat-Ok :
    (w : World) (key : String) (r : ContentRecord) (f : StoredBlob)
    (o : Result StoreError (Option StoredBlob))
    → stat w.store key ≡ o
    → SessionOk w.store w.table key (publishing r f)
    → SessionOk w.store w.table key (after_stat r f o)
unfolding after_stat
after_stat-Ok w key r f (raised x) e s = tt
after_stat-Ok w key r f (ok none) e s = tt
after_stat-Ok w key r f (ok (some b)) e s = elim (Bool-cases (same_blob b f)) [
  | inl y ↦ rw (y) (s.0, s.1, s.2, e ∙ ap (λ x. ok (some x)) (same_blob_lem b f y))
  | inr n ↦ rw (n) tt
]

stat-Sound :
    (w : World) (key : String) (x : Session)
    → SessionOk w.store w.table key x
    → Sound w
    → Sound (stat_final key x w)
unfolding stat_final
stat-Sound w key (publishing r f) s h =
    enter-Sound w key (after_stat r f (stat w.store key))
      (after_stat-Ok w key r f (stat w.store key) refl s) h
stat-Sound w key idle s h = h
stat-Sound w key collecting s h = h
stat-Sound w key cleared s h = h
stat-Sound w key (observed r f) s h = h

see-Sound : (w : World) (id : String) → Sound w → Sound (see (get id w.table) w)
see-Sound w id h = elim (Option-cases (get id w.table)) [
  | inl e ↦ rw (e) h
  | inr r ↦ rw (r.1) (record {
    unique = h.unique;
    rows = h.rows;
    seen =
        All-append (Tracked w.table) w.seen (r.0 ∷ []) h.seen
          ((r.0, get-Only id w.table r.0 h.unique r.1, Follows-refl r.0), tt);
    sessions = h.sessions;
  })
]

-- Every step of every task.
step-Sound : (w : World) (e : Event) → Sound w → Sound (step w e)
unfolding step
step-Sound w (writes c) h = elim (Bool-cases (is_routine c)) [
  | inl e ↦ rw (e) (writes-Sound w c e h)
  | inr e ↦ rw (e) h
]
step-Sound w (reads id) h = see-Sound w id h
step-Sound w (links sha256 size) h = link-Sound w (storage_key_of sha256) size h
step-Sound w (locks_final n) h = lock_final-Sound w n h
step-Sound w (stats key) h = stat-Sound w key (w.sessions key) (h.sessions key) h
step-Sound w (commits now key) h = commit-Sound w now key (w.sessions key) (h.sessions key) h
step-Sound w (locks_candidate key) h = lock-Sound w key collecting tt h
step-Sound w (checks key) h = check-Sound w key (w.sessions key) h
step-Sound w (removes key) h = remove-Sound w key (w.sessions key) (h.sessions key) h
step-Sound w (leaves key) h = enter-Sound w key idle tt h

run-Sound : (w : World) (es : List Event) → Sound w → Sound (run w es)
unfolding run
run-Sound w [] h = h
run-Sound w (e ∷ es) h = run-Sound (step w e) es (step-Sound w e h)

empty-Sound : Sound empty
unfolding rows_of
empty-Sound = record { unique = λ id. omega arith; rows = tt; seen = tt; sessions = λ key. tt }

-- A row of the audit that has its blob.
module _ (store : Store) where
  abbrev Whole : ContentRecord → Type 0
  Whole r = state_is r.content.state available ≡ true × Stored store r

  insert_row-All :
      (P : ContentRecord → Type 0) (r : ContentRecord) (t : Table)
      → P r
      → All P t
      → All P (insert_row r t)
  unfolding insert_row
  insert_row-All P r [] p h = (p, tt)
  insert_row-All P r (x ∷ t) p h = elim (Bool-cases (leb r.updated_at x.updated_at)) [
    | inl e ↦ rw (e) (p, h)
    | inr e ↦ rw (e) (h.0, insert_row-All P r t p h.1)
  ]

  by_update-All : (P : ContentRecord → Type 0) (t : Table) → All P t → All P (by_update t)
  unfolding by_update
  by_update-All P [] h = tt
  by_update-All P (r ∷ t) h = insert_row-All P r (by_update t) h.0 (by_update-All P t h.1)

  take-All : (P : ContentRecord → Type 0) (n : ℕ) (t : Table) → All P t → All P (take n t)
  take-All P zero t h = tt
  take-All P (suc n) [] h = tt
  take-All P (suc n) (r ∷ t) h = (h.0, take-All P n t h.1)

  select-Whole :
      (t : Table)
      → All (Stored store) t
      → All Whole (select (λ r. state_is r.content.state available) t)
  select-Whole [] h = tt
  select-Whole (r ∷ t) h = elim (Bool-cases (state_is r.content.state available)) [
    | inl e ↦
        rw (select-true (λ x. state_is x.content.state available) r t e)
          ((e, h.0), select-Whole t h.1)
    | inr e ↦ rw (select-false (λ x. state_is x.content.state available) r t e) (select-Whole t h.1)
  ]

  not_broken :
      (r : ContentRecord) (b : StoredBlob)
      → r.content.sha256 ≡ some b.sha256
      → r.content.size_bytes ≡ some b.size
      → is_broken r (some b) ≡ false
  unfolding is_broken
  not_broken r b sha size = ap not (
      and_both (same_text r.content.sha256 b.sha256) (same_size r.content.size_bytes b.size)
        (ap (λ o. same_text o b.sha256) sha ∙ (eq_iff b.sha256 b.sha256).1 refl)
        (ap (λ o. same_size o b.size) size ∙ (==_iff b.size b.size).1 refl))

  row_clean :
      (r : ContentRecord) (rest : Result StoreError ℕ)
      → Whole r
      → audit_row store r r.storage_key rest ≡ add_error false rest
  unfolding audit_row audit_stat
  row_clean r rest (e, inl n) = cc (e, n)
  row_clean r rest (e, inr (b, at, there, sha, size)) =
      ap (λ k. audit_row store r k rest) at
      ∙ ap (λ o. audit_stat r o rest) there
      ∙ ap (λ x. add_error x rest) (not_broken r b sha size)

  audit_clean : (t : Table) → All Whole t → audit store t ≡ ok 0
  unfolding audit
  audit_clean [] h = refl
  audit_clean (r ∷ t) h = row_clean r (audit store t) h.0 ∙ ap (add_error false) (audit_clean t h.1)

-- In every history of the tasks from the empty world, an audit of the available rows finds no
-- integrity error: whatever the order in which contents are created, staged, published, failed and
-- inspected, blobs are linked, and candidates are locked, checked and removed, every available row
-- has its blob, with its hash and size.
pub run-audit :
    (es : List Event) (limit : ℕ)
    → audit (run empty es).store (available_for_audit limit (run empty es).table) ≡ ok 0
unfolding available_for_audit
run-audit es limit =
    let w = run empty es in
    let rows = select-Whole w.store w.table (run-Sound empty es empty-Sound).rows in
    let is_available = λ (r : ContentRecord). state_is r.content.state available in
    audit_clean w.store (take limit (by_update (select is_available w.table))) (
      take-All w.store (Whole w.store) limit (by_update (select is_available w.table))
        (by_update-All w.store (Whole w.store) (select is_available w.table) rows))
