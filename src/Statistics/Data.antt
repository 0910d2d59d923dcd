-- ===== src/Statistics/Data.antt =====
-- llm_stats.py: the client's settings, what it uses of the network and the clock, and its errors.
use graph_coder.Base.{ℕ, String, Bool, Option, Result}
use graph_coder.Values.{Json, Members}
use graph_coder.Graph.Node.{ℤ}
use graph_coder.Routing.Floats.{Floats}

-- An HTTPError: its code, its body and its header `Retry-After`.
pub record HttpError : Type 0 where
  pub code : ℤ
  pub body : String
  pub retry_after : Option String

-- What `urlopen` gives: a body, or an exception that the client handles.
pub data Response : Type 0 where
  received : String → Response
  refused : HttpError → Response
  unreachable : Response

-- The world that the client acts on, `W`, and its numbers, `F`.
pub record Network (W F : Type 0) : Type 0 where
  pub floats : Floats F
  -- `os.environ.get(API_KEY_ENV)`.
  pub api_key : W → Option String
  -- `urlopen` of a URL with a key, and reading the response.
  pub urlopen : String → String → W → Response × W
  pub sleep : F → W → W
  pub now : W → F
  -- `json.loads`, `float` of a text, and the time stamp of a date; `none` is an exception.
  pub loads : String → Option Json
  pub float : String → Option F
  pub timestamp : String → Option F
  pub of_natural : ℕ → F
  pub of_integer : ℤ → F
  -- The text of a number in JSON, and `json.dumps`.
  pub render : F → String
  pub dumps : Json → String
  -- The text of the cache file, where there is one, and `atomic_write` to it, which may raise.
  pub read_file : W → Option String
  pub write_file : String → W → Bool × W
  -- `urljoin`, `urlencode`, `quote` and `str` of an integer or another value.
  pub urljoin : String → String → String
  pub urlencode : Members → String
  pub quote : String → String
  pub decimal : ℤ → String
  pub str : Json → String

pub record Client (F : Type 0) : Type 0 where
  -- With a slash at its end.
  pub base_url : String
  pub max_retries : ℕ
  pub retry_backoff : F
  pub cache_ttl_seconds : F

-- LLMStatsError and LLMStatsSchemaError, and what else reaches a caller.
pub data StatsError : Type 0 where
  key_required request_failed : StatsError
  http_failed : String → StatsError
  not_an_object page_without_list collection_without_list bad_cursor repeated_cursor : StatsError
  model_not_object model_without_id : StatsError
  item_not_object item_without_id : (index : ℕ) → StatsError
  item_without_key : (index : ℕ) (key : String) → StatsError
  -- A file that cannot be read or written.
  unreadable_cache unwritable_cache : StatsError

-- What an operation returns, and the world after it.
abbrev pub Effect : Type 0 → Type 0 → Type 0
Effect W A = Result StatsError A × W
