-- ===== src/Llm/Policy.antt =====
-- What a failed call means (scrape/llm/llm-retry-policy.util.ts). The classes of errors are those of
-- the client library; a `retry-after` header is whole seconds, `none` if absent or no number.
use whisky_scrapper_node.Prelude.{ℕ, ◌*◌, ◌^◌, min, Option, none, some}

pub data ErrorClass : Type 0 where
  authentication permission_denied rate_limit internal_server api_connection other : ErrorClass

pub record LlmError : Type 0 where
  pub class : ErrorClass
  pub retry_after : Option ℕ

pub data LlmErrorKind : Type 0 where
  transport halve fatal : LlmErrorKind

unfoldable pub classify : LlmError → LlmErrorKind
classify e = elim e.class [
  | authentication ↦ fatal
  | permission_denied ↦ fatal
  | rate_limit ↦ transport
  | internal_server ↦ transport
  | api_connection ↦ transport
  | other ↦ halve
]

abbrev pub base_delay_ms : ℕ
base_delay_ms = 2000

abbrev pub max_delay_ms : ℕ
max_delay_ms = 10000

unfoldable pub retry_after_ms : LlmError → Option ℕ
retry_after_ms e = elim e.retry_after [ none ↦ none | some seconds ↦ some (seconds * 1000) ]

unfoldable pub retry_delay_ms : LlmError → ℕ → ℕ
retry_delay_ms e round = elim (retry_after_ms e) [
  | none ↦ min max_delay_ms (base_delay_ms * 2 ^ round)
  | some ms ↦ min max_delay_ms ms
]
