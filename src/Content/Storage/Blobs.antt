-- ===== src/Content/Storage/Blobs.antt =====
-- application/content/service.py, maintenance.py and infrastructure/content/filesystem.py: the steps
-- that link and remove the file of a blob.
use web_access_mcp_server.Base.{
  ℕ, ◌≡◌, inl, inr, refl, sym, ap, eq_iff, ◌∙◌, String, true, false, ◌&&◌, Option, none, some, [],
  ◌∷◌, All, All-mono, str_eq, Bool-cases, or_left, or_right, and_both, is_some, same_text,
}
use web_access_mcp_server.Base.Effects.{ok}
use web_access_mcp_server.Content.Model.{available, state_is}
use web_access_mcp_server.Content.Repository.{ContentRecord, Table, has_active_storage_reference}
use web_access_mcp_server.Content.Storage.{
  StoredBlob, Store, stat, stat_file, path_for_key, link, unlink, Session, idle, collecting,
  cleared, publishing, observed, World, check_candidate, remove_candidate,
}
use web_access_mcp_server.Content.Storage.Sound.{
  Stored, Free, SessionOk, Sound, SessionOk-mono, update-SessionOk, enter-Sound,
}

stat_same :
    (s s' : Store) (key : String) (b : StoredBlob)
    → s' key ≡ s key
    → stat s key ≡ ok (some b)
    → stat s' key ≡ ok (some b)
unfolding stat
stat_same s s' key b e h = ap (stat_file key (path_for_key key)) e ∙ h

file_some :
    (key : String) (name : Option String) (size : Option ℕ) (b : StoredBlob)
    → stat_file key name size ≡ ok (some b)
    → (n : ℕ) × (size ≡ some n)
file_some key none size b h = cc (h)
file_some key (some name) none b h = cc (h)
file_some key (some name) (some n) b h = (n, refl)

pub file_key :
    (key : String) (name : Option String) (size : Option ℕ) (b : StoredBlob)
    → stat_file key name size ≡ ok (some b)
    → b.key ≡ key
file_key key none size b h = cc (h)
file_key key (some name) none b h = cc (h)
file_key key (some name) (some n) b h = cc (h)

-- A file that is there is not linked over.
link_keeps : (s : Store) (k key : String) (size n : ℕ) → s key ≡ some n → link k size s key ≡ s key
unfolding link
link_keeps s k key size n e = elim (Bool-cases (is_some (s k))) [
  | inl o ↦ rw (o, link) refl
  | inr o ↦ elim (Bool-cases (str_eq key k)) [
    | inr f ↦ rw (o, f, link) refl
    | inl f ↦ cc (o, ap is_some (sym (ap s ((eq_iff key k).0 f)) ∙ e))
  ]
]

unlink_other : (s : Store) (k key : String) → str_eq key k ≡ false → unlink k s key ≡ s key
unfolding unlink
unlink_other s k key e = rw (e) refl

-- The rows' blobs stay.
Stored-mono :
    (s s' : Store) (r : ContentRecord)
    → ((b : StoredBlob)
        → r.storage_key ≡ some b.key
        → stat s b.key ≡ ok (some b)
        → stat s' b.key ≡ ok (some b))
    → Stored s r
    → Stored s' r
Stored-mono s s' r kept (inl e) = inl e
Stored-mono s s' r kept (inr (b, k, h, sha, size)) = inr (b, k, kept b k h, sha, size)

pub link-Sound :
    (w : World) (key : String) (size : ℕ)
    → Sound w
    → Sound (record w { store = link key size w.store })
unfolding stat
link-Sound w key size h = record {
  unique = h.unique;
  rows =
      All-mono (Stored w.store) (Stored (link key size w.store)) w.table
        (λ r. Stored-mono w.store (link key size w.store) r (λ b _. kept b.key b)) h.rows;
  seen = h.seen;
  sessions = λ k.
      SessionOk-mono w.store (link key size w.store) w.table w.table k (λ r x. x) (kept k) (λ x. x)
        (w.sessions k) (h.sessions k);
}
  where
    kept :
        (k : String) (b : StoredBlob)
        → stat w.store k ≡ ok (some b)
        → stat (link key size w.store) k ≡ ok (some b)
    kept k b e =
        let there = file_some k (path_for_key k) (w.store k) b e in
        stat_same w.store (link key size w.store) k b
          (link_keeps w.store key k size there.0 there.1) e

pub different : (a b : String) → str_eq a b ≡ false → str_eq b a ≡ false
different a b e = elim (Bool-cases (str_eq b a)) [
  | inr f ↦ f
  | inl f ↦ cc ((eq_iff a b).1 (sym ((eq_iff b a).0 f)), e)
]

-- An available row of a key is not free of it.
kept_apart :
    (s : Store) (key : String) (r : ContentRecord)
    → Free key r
    → Stored s r
    → Stored (unlink key s) r
unfolding stat
kept_apart s key r free stored = elim (Bool-cases (state_is r.content.state available)) [
  | inr e ↦ inl e
  | inl e ↦ Stored-mono s (unlink key s) r (λ b at. kept b e at) stored
]
  where
    kept :
        (b : StoredBlob)
        → state_is r.content.state available ≡ true
        → r.storage_key ≡ some b.key
        → stat s b.key ≡ ok (some b)
        → stat (unlink key s) b.key ≡ ok (some b)
    kept b e at there = elim (Bool-cases (str_eq b.key key)) [
      | inr f ↦ stat_same s (unlink key s) b.key b (unlink_other s key b.key f) there
      | inl f ↦ cc (
        free,
        and_both (same_text r.storage_key key) (state_is r.content.state available)
            (ap (λ o. same_text o key) at ∙ f) e,
      )
    ]

pub All-both :
    (P Q : ContentRecord → Type 0) (t : Table) → All P t → All Q t → All (λ r. P r × Q r) t
All-both P Q [] p q = tt
All-both P Q (r ∷ t) p q = ((p.0, q.0), All-both P Q t p.1 q.1)

pub remove-Sound :
    (w : World) (key : String) (x : Session)
    → SessionOk w.store w.table key x
    → Sound w
    → Sound (remove_candidate key x w)
unfolding remove_candidate
remove-Sound w key cleared free h = record {
  unique = h.unique;
  rows =
      All-mono (λ r. Free key r × Stored w.store r) (Stored (unlink key w.store)) w.table
        (λ r x. kept_apart w.store key r x.0 x.1)
        (All-both (Free key) (Stored w.store) w.table free h.rows);
  seen = h.seen;
  sessions = update-SessionOk (unlink key w.store) w.table key idle w.sessions tt (λ k e.
      SessionOk-mono w.store (unlink key w.store) w.table w.table k (λ r x. x)
        (λ b. stat_same w.store (unlink key w.store) k b (unlink_other w.store key k e)) (λ x. x)
        (w.sessions k) (h.sessions k));
}
remove-Sound w key idle free h = h
remove-Sound w key collecting free h = h
remove-Sound w key (publishing r f) free h = h
remove-Sound w key (observed r f) free h = h

pub check-Sound :
    (w : World) (key : String) (x : Session) → Sound w → Sound (check_candidate key x w)
unfolding check_candidate has_active_storage_reference
check-Sound w key collecting h = elim (Bool-cases (has_active_storage_reference key w.table)) [
  | inl e ↦ rw (e) (enter-Sound w key idle tt h)
  | inr e ↦ rw (e) (enter-Sound w key cleared (none_active w.table e) h)
]
  where
    none_active : (t : Table) → has_active_storage_reference key t ≡ false → All (Free key) t
    none_active [] e = tt
    none_active (r ∷ t) e = (
      or_left (same_text r.storage_key key && state_is r.content.state available)
          (has_active_storage_reference key t) e,
      none_active t (
          or_right (same_text r.storage_key key && state_is r.content.state available)
            (has_active_storage_reference key t) e),
    )
check-Sound w key idle h = h
check-Sound w key cleared h = h
check-Sound w key (publishing r f) h = h
check-Sound w key (observed r f) h = h
