-- ===== src/Search/Usage/Started.antt =====
-- infrastructure/search/usage.py: `mark_stage` after `start_attempt`.
use web_access_mcp_server.Base.{
  ℕ, ◌≡◌, inl, inr, refl, subst, String, Bool, true, false, not, ◌&&◌, ◌||◌, none, some, List, [],
  ◌∷◌, ◌++◌, arith, leb, Bool-cases, if◌then◌else◌, any, length, select, length-select-append,
  select-true, select-false, ==_iff, eq_iff,
}
use web_access_mcp_server.Search.Attempts.{pre_dispatch}
use web_access_mcp_server.Search.Usage.{
  AttemptKey, AttemptRow, StageMark, same_key, stage_rank, start_attempt, is_marked, update,
  mark_stage,
}

same_key_refl : (key : AttemptKey) → same_key key key ≡ true
same_key_refl key = rw ((eq_iff key.operation_id key.operation_id).1 refl) (
    rw ((eq_iff key.provider_id key.provider_id).1 refl) (
      rw ((==_iff key.query_item_index key.query_item_index).1 refl)
        ((==_iff key.attempt_number key.attempt_number).1 refl)))

module _ (key : AttemptKey) (mark : StageMark) where
  none_marked :
      (rows : List AttemptRow)
      → any (λ r. same_key r.key key) rows ≡ false
      → length (select (is_marked key mark) rows) ≡ 0
  unfolding is_marked
  none_marked [] h = refl
  none_marked (r ∷ rs) h = elim (Bool-cases (is_marked key mark r)) [
    | inl e ↦ absurd (ground arith)
    | inr e ↦ rw (select-false (is_marked key mark) r rs e) (none_marked rs (rest _ _ h))
  ]
    where
      rest : (b c : Bool) → (b || c) ≡ false → c ≡ false
      rest b c e = ground arith

  -- the row of an attempt that was just started
  abbrev fresh_row : String → AttemptRow
  fresh_row principal_id = record {
    key = key;
    principal_id = principal_id;
    stage = pre_dispatch;
    outcome_code = none;
    retry_reason = none;
    provider_request_id = none;
    completed_at = none;
  }

  fresh-is_marked : (principal_id : String) → is_marked key mark (fresh_row principal_id) ≡ true
  unfolding is_marked stage_rank
  fresh-is_marked principal_id = rw (same_key_refl key) (ground arith)

  one_marked :
      (principal_id : String) (rows : List AttemptRow)
      → any (λ r. same_key r.key key) rows ≡ false
      → length (select (is_marked key mark) (rows ++ (fresh_row principal_id ∷ []))) ≡ 1
  one_marked principal_id rows h = omega (
    arith,
    length-select-append (is_marked key mark) rows (fresh_row principal_id ∷ []),
    none_marked rows h,
    one,
  )
    where
      one : length (select (is_marked key mark) (fresh_row principal_id ∷ [])) ≡ 1
      one =
          rw
            (select-true (is_marked key mark) (fresh_row principal_id) []
              (fresh-is_marked principal_id))
            refl

-- An attempt that the table accepted as started has one row, which every stage can be marked in,
-- at once: the mark updates that row and is not refused.
pub mark_stage-start_attempt :
    (now : ℕ) (principal_id : String) (key : AttemptKey) (mark : StageMark)
    (rows rows' : List AttemptRow)
    → start_attempt principal_id key rows ≡ some rows'
    → mark_stage now key mark rows' ≡ some (update now key mark rows')
unfolding start_attempt mark_stage
mark_stage-start_attempt now principal_id key mark rows rows' h =
    go (not (leb key.query_item_index 31))
      (not (leb 1 key.attempt_number && leb key.attempt_number 16))
      (any (λ r. same_key r.key key) rows) (one_marked key mark principal_id rows) h
  where
    started : List AttemptRow
    started = rows ++ (fresh_row key mark principal_id ∷ [])

    accepted :
        (l : List AttemptRow)
        → length (select (is_marked key mark) l) ≡ 1
        → mark_stage now key mark l ≡ some (update now key mark l)
    accepted l e = rw e refl

    go :
        (a b taken : Bool)
        → (taken ≡ false → length (select (is_marked key mark) started) ≡ 1)
        → (if a || b || taken then none else some started) ≡ some rows'
        → mark_stage now key mark rows' ≡ some (update now key mark rows')
    go true b taken f e = absurd (ground arith)
    go false true taken f e = absurd (ground arith)
    go false false true f e = absurd (ground arith)
    go false false false f e =
        subst (λ l. mark_stage now key mark l ≡ some (update now key mark l)) (cc e)
          (accepted started (f refl))
