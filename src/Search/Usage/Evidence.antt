-- ===== src/Search/Usage/Evidence.antt =====
-- infrastructure/search/usage.py: what becomes of a row of the table.
use web_access_mcp_server.Base.{
  ℕ, ◌≤◌, ◌≡◌, refl, ◌∙◌, Bool, true, false, ◌&&◌, Option, none, some, List, [], ◌∷◌, ◌++◌, arith,
  leb→le, is_some, if◌then◌else◌,
}
use web_access_mcp_server.Search.Usage.{
  AttemptKey, AttemptRow, StageMark, same_key, stage_rank, coalesce, start_attempt, is_marked,
  set_row, update, mark_stage, UsageWork, starts, marks, committed, work, work_all,
}

-- the same attempt, no earlier in its stages and with no column emptied
pub record Follows (r r' : AttemptRow) : Type 0 where
  pub key : r'.key ≡ r.key
  pub principal : r'.principal_id ≡ r.principal_id
  pub stage : stage_rank r.stage ≤ stage_rank r'.stage
  pub outcome : is_some r.outcome_code ≡ true → is_some r'.outcome_code ≡ true
  pub request : is_some r.provider_request_id ≡ true → is_some r'.provider_request_id ≡ true

-- Each row is followed by the row in its place; rows may have been added.
abbrev pub Extends : List AttemptRow → List AttemptRow → Type 0
Extends [] rows = Unit
Extends (r ∷ rs) [] = true ≡ false
Extends (r ∷ rs) (r' ∷ rs') = Follows r r' × Extends rs rs'

Follows-refl : (r : AttemptRow) → Follows r r
Follows-refl r = record {
  key = refl;
  principal = refl;
  stage = omega arith;
  outcome = λ h. h;
  request = λ h. h;
}

Follows-trans : (a b c : AttemptRow) → Follows a b → Follows b c → Follows a c
Follows-trans a b c f g = record {
  key = g.key ∙ f.key;
  principal = g.principal ∙ f.principal;
  stage = omega (arith, f.stage, g.stage);
  outcome = λ h. g.outcome (f.outcome h);
  request = λ h. g.request (f.request h);
}

Extends-append : (rows more : List AttemptRow) → Extends rows (rows ++ more)
Extends-append [] more = tt
Extends-append (r ∷ rs) more = (Follows-refl r, Extends-append rs more)

Extends-refl : (rows : List AttemptRow) → Extends rows rows
Extends-refl [] = tt
Extends-refl (r ∷ rs) = (Follows-refl r, Extends-refl rs)

Extends-trans : (a b c : List AttemptRow) → Extends a b → Extends b c → Extends a c
Extends-trans [] b c f g = tt
Extends-trans (x ∷ a) [] c f g = ground arith
Extends-trans (x ∷ a) (y ∷ b) [] f g = g
Extends-trans (x ∷ a) (y ∷ b) (z ∷ c) f g =
    (Follows-trans x y z f.0 g.0, Extends-trans a b c f.1 g.1)

coalesce_some {ℓ} :
    {A : Type ℓ} (new old : Option A) → is_some old ≡ true → is_some (coalesce new old) ≡ true
coalesce_some (some a) old h = refl
coalesce_some none old h = h

set_row-Follows :
    (now : ℕ) (key : AttemptKey) (mark : StageMark) (r : AttemptRow)
    → is_marked key mark r ≡ true
    → Follows r (set_row now mark r)
unfolding set_row is_marked
set_row-Follows now key mark r h = record {
  key = refl;
  principal = refl;
  stage = leb→le (stage_rank r.stage) (stage_rank mark.stage) (second (same_key r.key key) _ h);
  outcome = coalesce_some mark.outcome_code r.outcome_code;
  request = coalesce_some mark.provider_request_id r.provider_request_id;
}
  where
    second : (b c : Bool) → (b && c) ≡ true → c ≡ true
    second b c e = ground arith

update-Extends :
    (now : ℕ) (key : AttemptKey) (mark : StageMark) (rows : List AttemptRow)
    → Extends rows (update now key mark rows)
unfolding update
update-Extends now key mark [] = tt
update-Extends now key mark (r ∷ rs) =
    (go (is_marked key mark r) (set_row-Follows now key mark r), update-Extends now key mark rs)
  where
    go :
        (b : Bool)
        → (b ≡ true → Follows r (set_row now mark r))
        → Follows r (if b then set_row now mark r else r)
    go true f = f refl
    go false f = Follows-refl r

committed-Extends :
    (b : Bool) (rows rows' : List AttemptRow)
    → Extends rows rows'
    → Extends rows (committed (if b then none else some rows') rows)
committed-Extends true rows rows' h = Extends-refl rows
committed-Extends false rows rows' h = h

work-Extends : (rows : List AttemptRow) (w : UsageWork) → Extends rows (work rows w)
unfolding work start_attempt mark_stage
work-Extends rows (starts principal_id key) = committed-Extends _ rows _ (Extends-append rows _)
work-Extends rows (marks now key mark) =
    committed-Extends _ rows (update now key mark rows) (update-Extends now key mark rows)

-- Whatever units of work are tried, committed or rolled back, each row of the table stays in its
-- place with its attempt and principal, its stage never moves back, and neither its outcome nor
-- its provider request id is emptied.
pub work_all-Extends :
    (ws : List UsageWork) (rows : List AttemptRow) → Extends rows (work_all rows ws)
unfolding work_all
work_all-Extends [] rows = Extends-refl rows
work_all-Extends (w ∷ ws) rows =
    Extends-trans rows (work rows w) (work_all (work rows w) ws) (work-Extends rows w)
      (work_all-Extends ws (work rows w))
