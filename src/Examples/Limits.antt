-- ===== src/Examples/Limits.antt =====
-- The rate limiter.
