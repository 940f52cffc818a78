-- ===== src/Content/Storage.antt =====
-- infrastructure/content/filesystem.py: the keys and the blobs of the content store, and the tasks
-- of application/content/service.py and maintenance.py that publish and collect blobs under the
-- advisory lock of a storage key. An event is one step of one task; a history is any list of them.
use Prim.Native.Char.{code}
use Prim.Native.String
use web_access_mcp_server.Base.{
  ℕ, zero, suc, ◌+◌, String, Bool, true, false, not, ◌&&◌, ◌||◌, Option, none, some, List, [], ◌∷◌,
  ◌++◌, any, select, ◌==◌, str_eq, if◌then◌else◌, is_none, is_some, same_text, append_text,
}
use web_access_mcp_server.Base.Effects.{Result, ok, raised}
use web_access_mcp_server.Content.Model.{
  ContentState, creating, available, ContentObject, state_is, is_hex, is_sha256, hex_text,
}
use web_access_mcp_server.Content.Repository.{
  ContentRecord, Table, get, publish, has_active_storage_reference, is_routine, Change, adds,
  claims, stages, publishes, fails, inspects, apply,
}
pub mod Keys
pub mod Sound
pub mod Blobs
pub mod Publish
pub mod Audit

-- `InvalidStorageKey`
pub data StoreError : Type 0 where
  invalid_storage_key : StoreError

pub record StoredBlob : Type 0 where
  pub key : String
  pub sha256 : String
  pub size : ℕ

-- `_KEY_PATTERN` with the equality of its groups: the name of the file
unfoldable pub key_parts : String → Option String
unfolding hex_text
key_parts (String.◌∷◌ a (String.◌∷◌ b (String.◌∷◌ c (String.◌∷◌ x (String.◌∷◌ y s))))) =
    if is_hex (code a)
      && is_hex (code b)
      && code c == b'/'
      && is_sha256 (String.◌∷◌ x (String.◌∷◌ y s))
      && code a == code x
      && code b == code y
    then some (String.◌∷◌ x (String.◌∷◌ y s))
    else none
key_parts _ = none

-- the text after the prefix
unfoldable pub after : String → String → Option String
after String.[] s = some s
after (String.◌∷◌ c p) String.[] = none
after (String.◌∷◌ c p) (String.◌∷◌ d s) =
    let rest = after p s in if code c == code d then rest else none

unfoldable pub parts_of : Option String → Option String
unfolding key_parts
parts_of none = none
parts_of (some rest) = key_parts rest

unfoldable pub path_for_key : String → Option String
unfolding parts_of after
path_for_key key = parts_of (after "sha256/" key)

-- `sha256[:2]`
abbrev pub first_two : String → String
first_two (String.◌∷◌ a (String.◌∷◌ b s)) = String.◌∷◌ a (String.◌∷◌ b String.[])
first_two s = s

-- `f"sha256/{sha256[:2]}/{sha256}"`
unfoldable pub storage_key_of : String → String
storage_key_of sha256 =
    append_text "sha256/" (append_text (first_two sha256) (append_text "/" sha256))

-- the sizes of the files under the blob root, by key
abbrev pub Store : Type 0
Store = String → Option ℕ

-- `stat` of a file of this name and size
abbrev pub stat_file : String → Option String → Option ℕ → Result StoreError (Option StoredBlob)
stat_file key none size = raised invalid_storage_key
stat_file key (some sha256) none = ok none
stat_file key (some sha256) (some size) =
    ok (some (record { key = key; sha256 = sha256; size = size }))

unfoldable pub stat : Store → String → Result StoreError (Option StoredBlob)
unfolding path_for_key
stat store key = stat_file key (path_for_key key) (store key)

abbrev pub update {ℓ} : {A : Type ℓ} → String → A → (String → A) → String → A
update key a f k = if str_eq k key then a else f k

-- `os.link` of a staged file, whose hash and size were verified
unfoldable pub link : String → ℕ → Store → Store
link key size store = if is_some (store key) then store else update key (some size) store

-- `remove`
unfoldable pub unlink : String → Store → Store
unlink key store = update key none store

-- `observed == final`
unfoldable pub same_blob : StoredBlob → StoredBlob → Bool
same_blob a b = str_eq a.key b.key && str_eq a.sha256 b.sha256 && a.size == b.size

-- the blob that a staged row is finalized to
unfoldable pub final_of : ContentRecord → Option StoredBlob
unfolding storage_key_of
final_of r =
    if state_is r.content.state creating && is_some r.staging_key
    then elim (r.content.sha256) [
      | none ↦ none
      | some sha256 ↦ elim (r.content.size_bytes) [
        | none ↦ none
        | some size ↦ some (record { key = storage_key_of sha256; sha256 = sha256; size = size })
      ]
    ]
    else none

-- the task that holds the advisory lock of a key, and how far it is
pub data Session : Type 0 where
  idle collecting cleared : Session
  publishing observed : ContentRecord → StoredBlob → Session

pub record World : Type 0 where
  pub table : Table
  pub store : Store
  pub sessions : String → Session
  -- the rows that tasks have read or written, and may act on later
  pub seen : List ContentRecord

pub data Event : Type 0 where
  writes : Change → Event
  reads : String → Event
  links : String → ℕ → Event
  locks_final : ℕ → Event
  stats : String → Event
  commits : ℕ → String → Event
  locks_candidate checks removes leaves : String → Event

abbrev pub nth : ℕ → Table → Option ContentRecord
nth n [] = none
nth zero (r ∷ rs) = some r
nth (suc n) (r ∷ rs) = nth n rs

abbrev pub is_idle : Session → Bool
is_idle idle = true
is_idle _ = false

abbrev pub enter : String → Session → World → World
enter key s w = record w { sessions = update key s w.sessions }

-- `lock_storage_key` of a task: it waits while another task holds the key
unfoldable pub lock : String → Session → World → World
lock key s w = if is_idle (w.sessions key) then enter key s w else w

unfoldable pub lock_final : Option ContentRecord → World → World
unfolding lock final_of
lock_final none w = w
lock_final (some r) w = elim (final_of r) [ none ↦ w | some f ↦ lock f.key (publishing r f) w ]

-- after the `stat` of the final key
unfoldable pub after_stat :
    ContentRecord → StoredBlob → Result StoreError (Option StoredBlob) → Session
unfolding same_blob
after_stat r f (ok (some b)) = if same_blob b f then observed r f else idle
after_stat r f (ok none) = idle
after_stat r f (raised e) = idle

-- the next step of the task that holds a key
unfoldable pub stat_final : String → Session → World → World
unfolding after_stat stat
stat_final key (publishing r f) w = enter key (after_stat r f (stat w.store key)) w
stat_final key _ w = w

unfoldable pub commit_final : ℕ → String → Session → World → World
unfolding publish
commit_final now key (observed r f) w = record w {
  table = (publish now r.content.content_id r.content.revision key w.table).1;
  sessions = update key idle w.sessions;
}
commit_final now key _ w = w

unfoldable pub check_candidate : String → Session → World → World
unfolding has_active_storage_reference
check_candidate key collecting w =
    enter key (if has_active_storage_reference key w.table then idle else cleared) w
check_candidate key _ w = w

unfoldable pub remove_candidate : String → Session → World → World
unfolding unlink
remove_candidate key cleared w = record w {
  store = unlink key w.store;
  sessions = update key idle w.sessions;
}
remove_candidate key _ w = w

abbrev pub see : Option ContentRecord → World → World
see none w = w
see (some r) w = record w { seen = w.seen ++ (r ∷ []) }

unfoldable pub step : World → Event → World
unfolding apply get link lock lock_final stat_final commit_final check_candidate remove_candidate
    storage_key_of
step w (writes c) = if is_routine c then record w { table = apply w.table c } else w
step w (reads id) = see (get id w.table) w
step w (links sha256 size) = record w { store = link (storage_key_of sha256) size w.store }
step w (locks_final n) = lock_final (nth n w.seen) w
step w (stats key) = stat_final key (w.sessions key) w
step w (commits now key) = commit_final now key (w.sessions key) w
step w (locks_candidate key) = lock key collecting w
step w (checks key) = check_candidate key (w.sessions key) w
step w (removes key) = remove_candidate key (w.sessions key) w
step w (leaves key) = enter key idle w

unfoldable pub run : World → List Event → World
unfolding step
run w [] = w
run w (e ∷ es) = run (step w e) es

-- no content, no blob and no task
abbrev pub empty : World
empty = record { table = []; store = λ k. none; sessions = λ k. idle; seen = [] }

-- the audit of `run_once`: one integrity error for a row without its blob
abbrev pub same_size : Option ℕ → ℕ → Bool
same_size none n = false
same_size (some m) n = m == n

unfoldable pub is_broken : ContentRecord → Option StoredBlob → Bool
is_broken r none = true
is_broken r (some b) =
    not (same_text r.content.sha256 b.sha256 && same_size r.content.size_bytes b.size)

-- `integrity_errors += 1`
abbrev pub add_error : Bool → Result StoreError ℕ → Result StoreError ℕ
add_error b (ok n) = ok (if b then suc n else n)
add_error b (raised e) = raised e

unfoldable pub audit_stat :
    ContentRecord
    → Result StoreError (Option StoredBlob)
    → Result StoreError ℕ
    → Result StoreError ℕ
unfolding is_broken
audit_stat r (ok b) rest = add_error (is_broken r b) rest
audit_stat r (raised e) rest = raised e

unfoldable pub audit_row :
    Store → ContentRecord → Option String → Result StoreError ℕ → Result StoreError ℕ
unfolding stat audit_stat
audit_row store r none rest = add_error true rest
audit_row store r (some key) rest = audit_stat r (stat store key) rest

unfoldable pub audit : Store → Table → Result StoreError ℕ
unfolding audit_row
audit store [] = ok 0
audit store (r ∷ rs) = audit_row store r r.storage_key (audit store rs)
