-- ===== src/Search/Providers/Stages.antt =====
-- What an adapter can know of the fate of its request, and the end of a body.
use web_access_mcp_server.Base.{
  String, ◌≡◌, refl, sym, ℕ, ◌+◌, ◌≤◌, arith, false, Option, none, some, List, [], ◌∷◌, ◌++◌,
  length, length-append, append_assoc, append_nil, concat, leb, ltb, if◌then◌else◌, Bool-cases, inl,
  inr, le-or-lt, lt→ltb, le→ltb_false,
}
use web_access_mcp_server.Base.Effects.{Result, ok, raised, and_then}
use web_access_mcp_server.Common.Results.{ExecutionStage, is_before_dispatch}
use web_access_mcp_server.Search.Providers.{
  ProviderFault, attempt_error, uncaught, ClientError, not_connected, timed_out, transport_failed,
  other_error, BodyEnd, complete, body_timed_out, body_failed, body_other, Response, Exchange,
  unanswered, answered, read_body, call_timeout, Platform, retry_after, seconds_of, result_item,
  validate_result_item, SearchResultItem,
}

-- what the end of a body means for the bytes that came
abbrev pub ended : (ClientError → ProviderFault) → List ℕ → BodyEnd → Result ProviderFault (List ℕ)
ended lost body complete = ok body
ended lost body body_timed_out = raised (lost timed_out)
ended lost body body_failed = raised (lost transport_failed)
ended lost body body_other = raised (lost other_error)

module _ (too_large : ProviderFault) (lost : ClientError → ProviderFault) (maximum : ℕ) where
  read_body-end :
      (body : List ℕ) (end : BodyEnd)
      → read_body too_large lost maximum body [] end ≡ ended lost body end
  unfolding read_body
  read_body-end body complete = refl
  read_body-end body body_timed_out = refl
  read_body-end body body_failed = refl
  read_body-end body body_other = refl

  read_body_from :
      (body : List ℕ) (chunks : List (List ℕ)) (end : BodyEnd)
      → length body ≤ maximum
      → read_body too_large lost maximum body chunks end ≡ (
          if ltb maximum (length (body ++ concat chunks))
          then raised too_large
          else ended lost (body ++ concat chunks) end)
  unfolding read_body
  read_body_from body [] end h =
      rw (append_nil body, le→ltb_false maximum (length body) h) (read_body-end body end)
  read_body_from body (chunk ∷ chunks) end h =
      elim (le-or-lt (length body + length chunk) maximum) [
        | inl le ↦
            rw
              (
                le→ltb_false maximum (length body + length chunk) le,
                sym (append_assoc body chunk (concat chunks)),
              )
              (read_body_from (body ++ chunk) chunks end
                (omega (arith, length-append body chunk, le)))
        | inr lt ↦
            rw
              (
                lt→ltb maximum (length body + length chunk) lt,
                lt→ltb maximum (length (body ++ (chunk ++ concat chunks))) (
                    omega (
                      arith,
                      lt,
                      length-append body (chunk ++ concat chunks),
                      length-append chunk (concat chunks),
                    )),
              )
              refl
      ]

  -- The body that is read chunk by chunk is the concatenation of the chunks where that is not over
  -- the bound, and ends as the client ends it; where it is over the bound, however the chunks are
  -- cut and however they end, the result is the error of a response that is too large.
  pub read_body-concat :
      (chunks : List (List ℕ)) (end : BodyEnd)
      → read_body too_large lost maximum [] chunks end ≡ (
          if ltb maximum (length (concat chunks))
          then raised too_large
          else ended lost (concat chunks) end)
  read_body-concat chunks end = read_body_from [] chunks end (omega arith)

-- the stage of a body's end
abbrev pub end_stage : BodyEnd → ExecutionStage
end_stage complete = ExecutionStage.terminal_known
end_stage _ = ExecutionStage.response_lost

-- the stage of a body: known where it is too large, however it ends
abbrev pub body_stage : ℕ → Response → ExecutionStage
body_stage maximum response =
    if ltb maximum (length (concat response.chunks))
    then ExecutionStage.terminal_known
    else end_stage response.body_end

-- What is known of a request: nothing was sent before a connection is there; the answer is known
-- with its status, where that is an error, or with its body, complete or too large; else it is lost.
abbrev pub known_stage : ℕ → Option Exchange → ExecutionStage
known_stage maximum none = ExecutionStage.before_dispatch
known_stage maximum (some (unanswered not_connected)) = ExecutionStage.before_dispatch
known_stage maximum (some (unanswered _)) = ExecutionStage.response_lost
known_stage maximum (some (answered response)) =
    if leb 400 response.status then ExecutionStage.terminal_known else body_stage maximum response

-- An answer does not count as a request that was not sent.
pub answered-known :
    (maximum : ℕ) (response : Response)
    → is_before_dispatch (known_stage maximum (some (answered response))) ≡ false
answered-known maximum response = elim (Bool-cases (leb 400 response.status)) [
  | inl e ↦ rw e refl
  | inr e ↦ rw e (elim (Bool-cases (ltb maximum (length (concat response.chunks)))) [
    | inl l ↦ rw l refl
    | inr l ↦ rw l (go response.body_end)
  ])
]
  where
    go : (end : BodyEnd) → is_before_dispatch (end_stage end) ≡ false
    go complete = refl
    go body_timed_out = refl
    go body_failed = refl
    go body_other = refl

-- the exchange, where the request is made
abbrev pub exchanged : {A : Type 0} → Result ProviderFault A → (A → Exchange) → Option Exchange
exchanged (ok a) client = some (client a)
exchanged (raised fault) client = none

-- an error of the attempt has the stage
abbrev pub Staged : ExecutionStage → ProviderFault → Type 0
Staged stage (attempt_error e) = e.stage ≡ stage
Staged stage uncaught = Unit

-- what is returned, or an error with the stage
abbrev pub Ends : {A : Type 0} → ExecutionStage → Result ProviderFault A → Type 0
Ends stage (ok a) = Unit
Ends stage (raised fault) = Staged stage fault

-- what is returned once the answer is known, or an error with the stage
abbrev pub Answers : {A : Type 0} → ExecutionStage → Result ProviderFault A → Type 0
Answers stage (ok a) = stage ≡ ExecutionStage.terminal_known
Answers stage (raised fault) = Staged stage fault

module _ {A B : Type 0} where
  pub Ends-and_then :
      (stage : ExecutionStage) (r : Result ProviderFault A) (go : A → Result ProviderFault B)
      → Ends stage r
      → ((a : A) → Ends stage (go a))
      → Ends stage (and_then r go)
  Ends-and_then stage (ok a) go h k = k a
  Ends-and_then stage (raised fault) go h k = h

  pub Answers-and_then :
      (stage : ExecutionStage) (r : Result ProviderFault A) (go : A → Result ProviderFault B)
      → Answers stage r
      → ((a : A) → Ends ExecutionStage.terminal_known (go a))
      → Ends stage (and_then r go)
  Answers-and_then stage (ok a) go h k = rw h (k a)
  Answers-and_then stage (raised fault) go h k = h

-- the reading of a body, by the errors of the adapter
pub bounded-Answers :
    (too_large : ProviderFault) (lost : ClientError → ProviderFault) (maximum : ℕ)
    (response : Response)
    → Staged ExecutionStage.terminal_known too_large
    → Staged ExecutionStage.response_lost (lost timed_out)
    → Staged ExecutionStage.response_lost (lost transport_failed)
    → Staged ExecutionStage.response_lost (lost other_error)
    → Answers (body_stage maximum response) (
        and_then {B = Response × List ℕ}
          (read_body too_large lost maximum [] response.chunks response.body_end)
          (λ body. ok (response, body)))
bounded-Answers too_large lost maximum response ht h1 h2 h3 =
    rw (read_body-concat too_large lost maximum response.chunks response.body_end)
      (elim (Bool-cases (ltb maximum (length (concat response.chunks)))) [
        | inl l ↦ rw l ht
        | inr l ↦ rw l (go response.body_end)
      ])
  where
    go :
        (end : BodyEnd)
        → Answers (end_stage end) (
            and_then {B = Response × List ℕ}
              (ended lost (concat response.chunks) end)
              (λ body. ok (response, body)))
    go complete = refl
    go body_timed_out = h1
    go body_failed = h2
    go body_other = h3

-- an adapter: what comes before the request, the request with the reading of the body, and the rest
pub sent-Ends :
    {A B C : Type 0} (maximum : ℕ) (prepared : Result ProviderFault A) (ask : A → Exchange)
    (receive : Exchange → Result ProviderFault B) (interpret : B → Result ProviderFault C)
    → Ends ExecutionStage.before_dispatch prepared
    → ((x : Exchange) → Answers (known_stage maximum (some x)) (receive x))
    → ((b : B) → Ends ExecutionStage.terminal_known (interpret b))
    → Ends
        (known_stage maximum (exchanged prepared ask))
        (and_then prepared (λ a. and_then (receive (ask a)) interpret))
sent-Ends maximum (ok a) ask receive interpret h hr hi =
    Answers-and_then (known_stage maximum (some (ask a))) (receive (ask a)) interpret (hr (ask a))
      hi
sent-Ends maximum (raised fault) ask receive interpret h hr hi = h

-- the running out of the time comes before the request
pub call_timeout-Ends :
    (remaining : Option ℕ) (setting : ℕ)
    → Ends ExecutionStage.before_dispatch (call_timeout remaining setting)
unfolding call_timeout
call_timeout-Ends none setting = tt
call_timeout-Ends (some n) setting = elim (Bool-cases (leb n 0)) [
  | inl e ↦ rw e refl
  | inr e ↦ rw e tt
]

pub result_item-Ends :
    (item : SearchResultItem) → Ends ExecutionStage.terminal_known (result_item item)
unfolding result_item
result_item-Ends item = elim (Bool-cases (validate_result_item item)) [
  | inl e ↦ rw e tt
  | inr e ↦ rw e tt
]

module _ (platform : Platform) where
  seconds_of-Ends : (n : Option ℕ) → Ends ExecutionStage.terminal_known (seconds_of platform n)
  seconds_of-Ends none = tt
  seconds_of-Ends (some n) = tt

  pub retry_after-Ends :
      (value : Option String) → Ends ExecutionStage.terminal_known (retry_after platform value)
  unfolding retry_after
  retry_after-Ends none = tt
  retry_after-Ends (some text) = elim (Bool-cases (platform.isdecimal text)) [
    | inl e ↦ rw e (seconds_of-Ends (platform.int text))
    | inr e ↦ rw e tt
  ]
