-- ===== src/Eval.antt =====
-- app/services/eval/metrics.py: the scores of the retrieval, the refusals and the latencies.
pub mod Retrieved
pub mod Refusals
