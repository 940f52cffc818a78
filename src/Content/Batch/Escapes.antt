-- ===== src/Content/Batch/Escapes.antt =====
-- application/content/service.py: the items of the batches of contents, and what leaves a batch.
use web_access_mcp_server.Base.{
  ℕ, suc, String, ◌≡◌, refl, true, Option, none, some, List, [], ◌∷◌, map, inl, inr, Bool-cases,
  if◌then◌else◌, ◌⊎◌, Option-cases, sym, ap, ◌∙◌, arith,
}
use web_access_mcp_server.Base.Effects.{Result, ok, raised, and_then}
use web_access_mcp_server.Common.Auth.{failure_value}
use web_access_mcp_server.Common.Results.{
  LeafOutcome, ErrorCategory, OperationError, plain_error, BatchItemResult, validate_item,
}
use web_access_mcp_server.Common.Results.Errors.{AllValid}
use web_access_mcp_server.Retrieval.Batch.Totality.{indexes_from}
use web_access_mcp_server.Content.Batch.{
  Fault, CodeAttribute, Thrown, is_machine_code, BatchEscape, batch_error, batch_item, batch_items,
}
use web_access_mcp_server.Content.Batch.Codes.{
  IsMachineCode, is_machine_code-IsMachineCode, not_IsMachineCode, failure_value-machine,
}

abbrev first_of : Option BatchEscape → Option BatchEscape → Option BatchEscape
first_of (some e) later = some e
first_of none later = later

module _ {D : Type 0} where
  -- the exception that leaves the batch with an item: the cancellation of its task, or the one that
  -- `OperationError` raises for a code that is no machine code
  unfoldable pub escape_of : Result Thrown D → Option BatchEscape
  escape_of (raised Thrown.cancelled) = some BatchEscape.task_cancelled
  escape_of (raised (Thrown.an_exception (Fault.other CodeAttribute.not_a_text))) =
      some BatchEscape.refused_error
  escape_of (raised (Thrown.an_exception (Fault.other (CodeAttribute.code_text s)))) =
      if is_machine_code s then none else some BatchEscape.refused_error
  escape_of _ = none

  -- the first item that leaves the batch
  unfoldable pub first_escape :
      (ℕ → String → Result Thrown D) → ℕ → List String → Option BatchEscape
  unfolding escape_of
  first_escape ask index [] = none
  first_escape ask index (id ∷ ids) =
      first_of (escape_of (ask index id)) (first_escape ask (suc index) ids)

  -- what an item raises is not caught, or its code is no machine code
  abbrev pub Leaves : Result Thrown D → BatchEscape → Type 0
  Leaves (raised Thrown.cancelled) e = e ≡ BatchEscape.task_cancelled
  Leaves (raised (Thrown.an_exception (Fault.other CodeAttribute.not_a_text))) e =
      e ≡ BatchEscape.refused_error
  Leaves (raised (Thrown.an_exception (Fault.other (CodeAttribute.code_text s)))) e =
      (IsMachineCode s → ⊥) × (e ≡ BatchEscape.refused_error)
  Leaves _ e = ⊥

  unfoldable pub SomeLeaves :
      (ℕ → String → Result Thrown D) → ℕ → List String → BatchEscape → Type 0
  SomeLeaves ask index [] e = ⊥
  SomeLeaves ask index (id ∷ ids) e = Leaves (ask index id) e ⊎ SomeLeaves ask (suc index) ids e

  escape_of-Leaves : (r : Result Thrown D) (e : BatchEscape) → escape_of r ≡ some e → Leaves r e
  unfolding escape_of
  escape_of-Leaves (ok value) e h = cc (h)
  escape_of-Leaves (raised Thrown.cancelled) e h = ground (arith, h)
  escape_of-Leaves (raised (Thrown.an_exception (Fault.authorization failure))) e h = cc (h)
  escape_of-Leaves (raised (Thrown.an_exception Fault.not_found)) e h = cc (h)
  escape_of-Leaves (raised (Thrown.an_exception Fault.unavailable)) e h = cc (h)
  escape_of-Leaves (raised (Thrown.an_exception (Fault.other CodeAttribute.no_code))) e h = cc (h)
  escape_of-Leaves (raised (Thrown.an_exception (Fault.other CodeAttribute.not_a_text))) e h =
      ground (arith, h)
  escape_of-Leaves (raised (Thrown.an_exception (Fault.other (CodeAttribute.code_text s)))) e h =
      elim (Bool-cases (is_machine_code s)) [
        | inl machine ↦ ground (arith, h)
        | inr refused ↦ (not_IsMachineCode s refused, ground (arith, h))
      ]

  pub first_escape-SomeLeaves :
      (ask : ℕ → String → Result Thrown D) (index : ℕ) (ids : List String) (e : BatchEscape)
      → first_escape ask index ids ≡ some e
      → SomeLeaves ask index ids e
  unfolding first_escape SomeLeaves
  first_escape-SomeLeaves ask index [] e h = cc (h)
  first_escape-SomeLeaves ask index (id ∷ ids) e h =
      elim (Option-cases (escape_of (ask index id))) [
        | inl caught ↦ inr (
            first_escape-SomeLeaves ask (suc index) ids e
              (ap (λ o. first_of o (first_escape ask (suc index) ids)) (sym caught) ∙ h))
        | inr (e', leaves) ↦ inl (
            escape_of-Leaves (ask index id) e
              (leaves ∙ ap (λ o. first_of o (first_escape ask (suc index) ids)) (sym leaves) ∙ h))
      ]

  -- an error with a machine code
  abbrev pub HasError : BatchItemResult D → Type 0
  HasError item = (error : OperationError) × ((item.error ≡ some error) × IsMachineCode error.code)

  -- an item as the answer to its id says
  abbrev pub Answers : Result Thrown D → BatchItemResult D → Type 0
  Answers (ok value) item = (item.outcome ≡ LeafOutcome.succeeded) × (item.value ≡ some value)
  Answers (raised (Thrown.an_exception (Fault.authorization failure))) item =
      (item.outcome ≡ LeafOutcome.rejected) × HasError item
  Answers (raised thrown) item = (item.outcome ≡ LeafOutcome.failed) × HasError item

  unfoldable pub AllAnswer :
      (ℕ → String → Result Thrown D) → ℕ → List String → List (BatchItemResult D) → Type 0
  AllAnswer ask index [] [] = Unit {0}
  AllAnswer ask index (id ∷ ids) (item ∷ items) =
      Answers (ask index id) item × AllAnswer ask (suc index) ids items
  AllAnswer ask index _ _ = ⊥

  -- an item as its escape says
  abbrev OneItem :
      Option BatchEscape → ℕ → Result Thrown D → Result BatchEscape (BatchItemResult D) → Type 0
  OneItem (some e) index answer r = r ≡ raised e
  OneItem none index answer r =
      (item : BatchItemResult D) × (r ≡ ok item)
      × (validate_item item ≡ true)
      × (item.index ≡ index)
      × Answers answer item

  abbrev error_item : ℕ → LeafOutcome → ErrorCategory → String → BatchItemResult D
  error_item index outcome category s = record {
    index = index;
    outcome = outcome;
    value = none;
    error = some (plain_error category s);
    warnings = [];
    hints = [];
  }

  batch_item-OneItem :
      (index : ℕ) (r : Result Thrown D) → OneItem (escape_of r) index r (batch_item index r)
  unfolding batch_item batch_error escape_of
  batch_item-OneItem index (ok value) = (_, refl, refl, refl, (refl, refl))
  batch_item-OneItem index (raised Thrown.cancelled) = refl
  batch_item-OneItem index (raised (Thrown.an_exception (Fault.authorization failure))) =
      let machine = failure_value-machine failure in
      (
        error_item index LeafOutcome.rejected ErrorCategory.permission (failure_value failure),
        rw (machine) refl,
        refl,
        refl,
        (refl, (_, (refl, is_machine_code-IsMachineCode (failure_value failure) machine))),
      )
  batch_item-OneItem index (raised (Thrown.an_exception Fault.not_found)) = (
    error_item index LeafOutcome.failed ErrorCategory.not_found "content_not_found",
    refl,
    refl,
    refl,
    (refl, (_, (refl, is_machine_code-IsMachineCode "content_not_found" refl))),
  )
  batch_item-OneItem index (raised (Thrown.an_exception Fault.unavailable)) = (
    error_item index LeafOutcome.failed ErrorCategory.conflict "content_unavailable",
    refl,
    refl,
    refl,
    (refl, (_, (refl, is_machine_code-IsMachineCode "content_unavailable" refl))),
  )
  batch_item-OneItem index (raised (Thrown.an_exception (Fault.other CodeAttribute.no_code))) = (
    error_item index LeafOutcome.failed ErrorCategory.internal "content_processing_failed",
    refl,
    refl,
    refl,
    (refl, (_, (refl, is_machine_code-IsMachineCode "content_processing_failed" refl))),
  )
  batch_item-OneItem index (raised (Thrown.an_exception (Fault.other CodeAttribute.not_a_text))) =
      refl
  batch_item-OneItem index
        (raised (Thrown.an_exception (Fault.other (CodeAttribute.code_text s)))) =
      elim (Bool-cases (is_machine_code s)) [
        | inl machine ↦ rw (machine) (
          error_item index LeafOutcome.failed ErrorCategory.internal s,
          refl,
          refl,
          refl,
          (refl, (_, (refl, is_machine_code-IsMachineCode s machine))),
        )
        | inr refused ↦ rw (refused) refl
      ]

  -- the items as the first escape says
  abbrev pub ItemsOf :
      (ℕ → String → Result Thrown D)
      → Option BatchEscape
      → ℕ
      → List String
      → Result BatchEscape (List (BatchItemResult D))
      → Type 0
  ItemsOf ask (some e) index ids r = r ≡ raised e
  ItemsOf ask none index ids r =
      (items : List (BatchItemResult D)) × (r ≡ ok items)
      × AllValid items
      × (map (λ item. item.index) items ≡ indexes_from index ids)
      × AllAnswer ask index ids items

  one_more :
      (ask : ℕ → String → Result Thrown D) (o later : Option BatchEscape) (index : ℕ) (id : String)
      (ids : List String) (x : Result BatchEscape (BatchItemResult D))
      (xs : Result BatchEscape (List (BatchItemResult D)))
      → OneItem o index (ask index id) x
      → ItemsOf ask later (suc index) ids xs
      → ItemsOf ask
          (first_of o later)
          index
          (id ∷ ids)
          (and_then x (λ item. and_then xs (λ items. ok (item ∷ items))))
  unfolding indexes_from AllAnswer
  one_more ask (some e) later index id ids x xs h rest = rw (h) refl
  one_more ask none (some e) index id ids x xs (item, here, v, at, a) rest = rw (here, rest) refl
  one_more ask none none index id ids x xs (item, here, v, at, a) (items, there, vs, ats, more) =
      (item ∷ items, rw (here, there) refl, (v, vs), (λ i. at i ∷ ats i), (a, more))

  pub batch_items-ItemsOf :
      (ask : ℕ → String → Result Thrown D) (index : ℕ) (ids : List String)
      → ItemsOf ask (first_escape ask index ids) index ids (batch_items ask index ids)
  unfolding batch_items first_escape indexes_from AllAnswer
  batch_items-ItemsOf ask index [] = ([], refl, tt, refl, tt)
  batch_items-ItemsOf ask index (id ∷ ids) =
      one_more ask (escape_of (ask index id)) (first_escape ask (suc index) ids) index id ids
        (batch_item index (ask index id)) (batch_items ask (suc index) ids)
        (batch_item-OneItem index (ask index id)) (batch_items-ItemsOf ask (suc index) ids)
