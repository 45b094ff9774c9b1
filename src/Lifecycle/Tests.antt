-- ===== src/Lifecycle/Tests.antt =====
-- The theorems on phases, timeouts and backoff at concrete inputs.
