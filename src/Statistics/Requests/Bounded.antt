-- ===== src/Statistics/Requests/Bounded.antt =====
-- How many requests `_request_json` sends.
use graph_coder.Base.{
  ℕ, zero, suc, ◌+◌, ◌≤◌, String, Option, none, some, ◌==◌, arith, Bool-cases, inl, inr,
}
use graph_coder.Values.{Members}
use graph_coder.Statistics.Data.{Network, Client, Effect}
use graph_coder.Statistics.Requests.{
  Judgement, done, again, judge, resume, with_key, request_from, request_json,
}

-- A count of requests: opening a URL adds at most one, sleeping adds none.
pub record IsCount {W F : Type 0} (network : Network W F) (count : W → ℕ) : Type 0 where
  pub opened : (url key : String) (w : W) → count (network.urlopen url key w).1 ≤ suc (count w)
  pub slept : (delay : F) (w : W) → count (network.sleep delay w) ≤ count w

module _ {W F : Type 0} (network : Network W F) (client : Client F) (count : W → ℕ)
    (counts : IsCount network count) where
  resume-bound :
      (v : Judgement F) (after : W) (next : W → Effect W Members) (left : ℕ)
      → ((w : W) → count (next w).1 ≤ count w + left)
      → count (resume network client v after next).1 ≤ count after + left
  resume-bound (done out) after next left h = omega arith
  resume-bound (again delay) after next left h =
      omega (arith, h (network.sleep delay after), counts.slept delay after)

  with_key-bound :
      (key : Option String) (w : W) (next : String → Effect W Members) (left : ℕ)
      → ((k : String) → count (next k).1 ≤ count w + left)
      → count (with_key network client key w next).1 ≤ count w + left
  with_key-bound none w next left h = omega arith
  with_key-bound (some k) w next left h = elim (Bool-cases (k == "")) [
    | inl e ↦ rw e (omega arith)
    | inr e ↦ rw e (h k)
  ]

  request_from-bound :
      (url : String) (left attempt : ℕ) (w : W)
      → count (request_from network client url left attempt w).1 ≤ count w + left
  unfolding request_from
  request_from-bound url zero attempt w = omega arith
  request_from-bound url (suc left) attempt w =
      with_key-bound (network.api_key w) w _ (suc left) (λ key.
        let sent = network.urlopen url key w in
        let rest =
          resume-bound (judge network client sent.0 attempt sent.1) sent.1
            (request_from network client url left (suc attempt)) left
            (request_from-bound url left (suc attempt)) in
        omega (arith, rest, counts.opened url key w))

  -- However the service responds, `_request_json` opens at most `max_retries + 1` URLs, by any
  -- count of the world to which an open adds at most one and a sleep none.
  pub request_json-bound :
      (url : String) (w : W)
      → count (request_json network client url w).1 ≤ count w + suc client.max_retries
  unfolding request_json
  request_json-bound url w = request_from-bound url (suc client.max_retries) 0 w
