-- ===== src/Llm.antt =====
-- The passes that ask a language model: `Policy` is scrape/llm/llm-retry-policy.util.ts, `Batch` the
-- batch runner (scrape/llm/llm-batch.runner.ts) one batch after another, `Turns` the same with
-- several in flight, and `Pool` utils/concurrency-pool.util.ts.
pub mod Policy
pub mod Batch
pub mod Turns
pub mod Pool
mod Tests
