-- ===== src/Pipeline/Hang.antt =====
-- The verifier's thread, asleep after shutdown.
