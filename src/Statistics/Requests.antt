-- ===== src/Statistics/Requests.antt =====
-- llm_stats.py `_request_json`: a request with a bounded number of attempts.
pub mod Bounded
use Prim.Native.String.{◌++◌}
use graph_coder.Base.{
  ℕ, zero, suc, ◌^◌, String, Bool, true, false, not, ◌&&◌, ◌||◌, List, [], ◌∷◌, Option, none, some,
  ok, err, Result, leb, eqb, ◌==◌, if◌then◌else◌,
}
use graph_coder.Values.{Json, null, object, text, Members, get, get_or_null, is_truthy}
use graph_coder.Graph.Node.{ℤ, pos, negsuc}
use graph_coder.Routing.Floats.{Floats, larger}
use graph_coder.Statistics.Data.{
  HttpError, Response, received, refused, unreachable, Network, Client, StatsError, key_required,
  request_failed, http_failed, not_an_object, Effect,
}

-- `exc.code in {429, 500, 502, 503, 504}`.
abbrev pub is_transient : ℤ → Bool
is_transient (pos n) = eqb n 429 || (eqb n 500 || (eqb n 502 || (eqb n 503 || eqb n 504)))
is_transient (negsuc n) = false

abbrev pub is_code : ℕ → ℤ → Bool
is_code k (pos n) = eqb n k
is_code k (negsuc n) = false

abbrev pub rejected_key : String
rejected_key =
    ". LLM_STATS_API_KEY is set but the API rejected the key itself, so it is invalid or expired rather than missing. Regenerate it at https://llm-stats.com/settings?tab=api-keys and export it into the process environment."

abbrev pub no_access : String
no_access =
    ". LLM_STATS_API_KEY is set and the key is recognized, but this account lacks Stats API access, so a new key will not help. Complete onboarding at https://llm-stats.com/developer and retry."

abbrev pub no_workaround : String
no_workaround =
    " Do not hand-pick a model to work around this; use the declared degraded-routing path in the routing-plan skill, which records the weaker evidence instead of hiding it."

-- An attempt ends the request, or is followed by another after a delay.
pub data Judgement (F : Type 0) : Type 0 where
  done : Result StatsError Members → Judgement F
  again : F → Judgement F

module _ {W F : Type 0} (network : Network W F) (client : Client F) where
  -- `str(error.get("message") or error.get("code") or "")`.
  unfoldable pub error_text : Members → String
  unfolding get
  error_text error =
      let message = get_or_null "message" error in
      let code = get_or_null "code" error in
      if is_truthy message
      then (elim message [ text s ↦ s | other ↦ network.str other ])
      else if is_truthy code
      then (elim code [ text s ↦ s | other ↦ network.str other ])
      else ""

  -- The detail that a body gives; nothing where it cannot be parsed.
  unfoldable pub detail_of : String → String
  unfolding error_text get
  detail_of body = elim (network.loads body) [
    | none ↦ ""
    | some (object m) ↦ elim (get "error" m) [
      | none ↦ error_text m
      | some (object e) ↦ error_text e
      | some _ ↦ ""
    ]
    | some _ ↦ ""
  ]

  unfoldable pub describe : HttpError → String
  unfolding detail_of
  describe exc =
      let detail = detail_of exc.body in
      let message = "LLM Stats request failed with HTTP " ++ network.decimal exc.code in
      let detailed = if detail == "" then message else message ++ (": " ++ detail) in
      let unauthorized = is_code 401 exc.code in
      let forbidden = is_code 403 exc.code in
      let remedy =
        if unauthorized
        then detailed ++ rejected_key
        else if forbidden
        then detailed ++ no_access
        else detailed in
      if unauthorized || forbidden then remedy ++ no_workaround else remedy

  -- `retry_backoff * (2**attempt)`.
  abbrev pub backoff : ℕ → F
  backoff attempt = network.floats.times client.retry_backoff (network.of_natural (2 ^ attempt))

  abbrev pub not_negative : F → F
  not_negative = larger network.floats network.floats.zero

  unfoldable pub retry_delay : HttpError → ℕ → W → F
  retry_delay exc attempt w = elim exc.retry_after [
    | none ↦ backoff attempt
    | some value ↦ if value == "" then backoff attempt else elim (network.float value) [
      | some seconds ↦ not_negative seconds
      | none ↦ elim (network.timestamp value) [
        | some at ↦ not_negative (network.floats.minus at (network.now w))
        | none ↦ backoff attempt
      ]
    ]
  ]

  -- What a received body gives: a mapping, an error, or nothing, where it is not JSON.
  abbrev pub decode : String → Option (Result StatsError Members)
  decode body = elim (network.loads body) [
    | none ↦ none
    | some (object m) ↦ some (ok m)
    | some _ ↦ some (err not_an_object)
  ]

  -- What becomes of an attempt, by the response and the world after it.
  unfoldable pub judge : Response → ℕ → W → Judgement F
  unfolding describe retry_delay
  judge (refused exc) attempt after =
      if not (is_transient exc.code) || leb client.max_retries attempt
      then done (err (http_failed (describe exc)))
      else again (retry_delay exc attempt after)
  judge unreachable attempt after =
      if leb client.max_retries attempt then done (err request_failed) else again (backoff attempt)
  judge (received body) attempt after = elim (decode body) [
    | some out ↦ done out
    | none ↦
        if leb client.max_retries attempt
        then done (err request_failed)
        else again (backoff attempt)
  ]

  -- The end, or the sleep and the next attempt.
  abbrev pub resume : Judgement F → W → (W → Effect W Members) → Effect W Members
  resume (done out) after next = (out, after)
  resume (again delay) after next = next (network.sleep delay after)

  -- An attempt needs a key.
  abbrev pub with_key : Option String → W → (String → Effect W Members) → Effect W Members
  with_key none w next = (err key_required, w)
  with_key (some key) w next = if key == "" then (err key_required, w) else next key

  -- The attempts that are left are counted down; `attempt` counts up.
  unfoldable pub request_from : String → ℕ → ℕ → W → Effect W Members
  unfolding judge
  request_from url zero attempt w = (err request_failed, w)
  request_from url (suc left) attempt w = with_key (network.api_key w) w λ key.
      let sent = network.urlopen url key w in
      resume (judge sent.0 attempt sent.1) sent.1 (request_from url left (suc attempt))

  unfoldable pub request_json : String → W → Effect W Members
  unfolding request_from
  request_json url w = request_from url (suc client.max_retries) 0 w
