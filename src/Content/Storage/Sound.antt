-- ===== src/Content/Storage/Sound.antt =====
-- application/content/service.py and maintenance.py: what every history of the tasks keeps of the
-- rows, the blobs and the tasks that hold a key.
use web_access_mcp_server.Base.{
  ◌≡◌, ◌⊎◌, inl, inr, sym, subst, eq_iff, String, Bool, true, false, ◌&&◌, some, All, All-mono,
  str_eq, Bool-cases, arith, same_text,
}
use web_access_mcp_server.Base.Effects.{ok}
use web_access_mcp_server.Content.Model.{available, state_is}
use web_access_mcp_server.Content.Repository.{
  ContentRecord, Table, inspected_row, is_routine, Change, apply,
}
use web_access_mcp_server.Content.Repository.Versions.{Follows-trans}
use web_access_mcp_server.Content.Repository.Tracking.{Kept, apply-Kept}
use web_access_mcp_server.Content.Repository.Rows.{Quiet, apply-All}
use web_access_mcp_server.Content.Repository.Unique.{Unique, apply-Unique}
use web_access_mcp_server.Content.Storage.{
  StoredBlob, Store, stat, update, final_of, Session, idle, collecting, cleared, publishing,
  observed, World, enter,
}

-- the row's blob, with the row's hash and size
abbrev pub Intact : Store → ContentRecord → Type 0
Intact store r =
    (b : StoredBlob) × (r.storage_key ≡ some b.key)
    × (stat store b.key ≡ ok (some b))
    × (r.content.sha256 ≡ some b.sha256)
    × (r.content.size_bytes ≡ some b.size)

-- an available row has its blob
abbrev pub Stored : Store → ContentRecord → Type 0
Stored store r = (state_is r.content.state available ≡ false) ⊎ Intact store r

-- no available row has the key
abbrev pub Free : String → ContentRecord → Type 0
Free key r = (same_text r.storage_key key && state_is r.content.state available) ≡ false

abbrev pub Tracked : Table → ContentRecord → Type 0
Tracked t r = Kept r.content.content_id r t

-- what the task that holds a key relies on
abbrev pub SessionOk : Store → Table → String → Session → Type 0
SessionOk store t key idle = Unit
SessionOk store t key collecting = Unit
SessionOk store t key cleared = All (Free key) t
SessionOk store t key (publishing r f) = (Tracked t r) × (final_of r ≡ some f) × (f.key ≡ key)
SessionOk store t key (observed r f) =
    (Tracked t r) × (final_of r ≡ some f) × (f.key ≡ key) × (stat store key ≡ ok (some f))

pub record Sound (w : World) : Type 0 where
  pub unique : Unique w.table
  pub rows : All (Stored w.store) w.table
  pub seen : All (Tracked w.table) w.seen
  pub sessions : (key : String) → SessionOk w.store w.table key (w.sessions key)

pub SessionOk-mono :
    (s s' : Store) (t t' : Table) (key : String)
    → ((r : ContentRecord) → Tracked t r → Tracked t' r)
    → ((b : StoredBlob) → stat s key ≡ ok (some b) → stat s' key ≡ ok (some b))
    → (All (Free key) t → All (Free key) t')
    → (x : Session) → SessionOk s t key x
    → SessionOk s' t' key x
SessionOk-mono s s' t t' key tracked stat_kept free idle h = tt
SessionOk-mono s s' t t' key tracked stat_kept free collecting h = tt
SessionOk-mono s s' t t' key tracked stat_kept free cleared h = free h
SessionOk-mono s s' t t' key tracked stat_kept free (publishing r f) h = (tracked r h.0, h.1, h.2)
SessionOk-mono s s' t t' key tracked stat_kept free (observed r f) h =
    (tracked r h.0, h.1, h.2, stat_kept f h.3)

-- The session of one key changes, and every other key keeps what its task relies on.
pub update-SessionOk :
    (s : Store) (t : Table) (key : String) (x : Session) (all : String → Session)
    → SessionOk s t key x
    → ((k : String) → str_eq k key ≡ false → SessionOk s t k (all k))
    → (k : String) → SessionOk s t k (update key x all k)
update-SessionOk s t key x all h others k = elim (Bool-cases (str_eq k key)) [
  | inl e ↦ rw (e) (subst (λ j. SessionOk s t j x) (sym ((eq_iff k key).0 e)) h)
  | inr e ↦ rw (e) (others k e)
]

pub Stored-Quiet : (store : Store) → Quiet (Stored store)
unfolding inspected_row
Stored-Quiet store = record {
  hidden = λ r h. inl h;
  inspected = λ now n i r h. elim h [ inl e ↦ inl e | inr x ↦ inr x ];
}

pub Free-Quiet : (key : String) → Quiet (Free key)
unfolding inspected_row
Free-Quiet key = record {
  hidden = λ r h. rw (h) (and_false (same_text r.storage_key key));
  inspected = λ now n i r h. h;
}
  where
    and_false : (b : Bool) → (b && false) ≡ false
    and_false b = ground arith

pub apply-Tracked :
    (t : Table) (c : Change) (r : ContentRecord) → Tracked t r → Tracked (apply t c) r
apply-Tracked t c r h =
    let next = apply-Kept r.content.content_id t h.0 c h.1 in
    (next.0, next.1, Follows-trans r h.0 next.0 h.2 next.2)

-- A write that does not publish.
pub writes-Sound :
    (w : World) (c : Change)
    → is_routine c ≡ true
    → Sound w
    → Sound (record w { table = apply w.table c })
writes-Sound w c e h = record {
  unique = apply-Unique w.table c h.unique;
  rows = apply-All (Stored w.store) (Stored-Quiet w.store) w.table c e h.rows;
  seen =
      All-mono (Tracked w.table) (Tracked (apply w.table c)) w.seen (apply-Tracked w.table c)
        h.seen;
  sessions = λ key.
      SessionOk-mono w.store w.store w.table (apply w.table c) key (apply-Tracked w.table c)
        (λ b x. x) (apply-All (Free key) (Free-Quiet key) w.table c e) (w.sessions key)
        (h.sessions key);
}

-- The task of a key goes on.
pub enter-Sound :
    (w : World) (key : String) (x : Session)
    → SessionOk w.store w.table key x
    → Sound w
    → Sound (enter key x w)
enter-Sound w key x ok_x h = record {
  unique = h.unique;
  rows = h.rows;
  seen = h.seen;
  sessions = update-SessionOk w.store w.table key x w.sessions ok_x (λ k e. h.sessions k);
}
