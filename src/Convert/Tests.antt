-- ===== src/Convert/Tests.antt =====
-- The conversion of a secret with a token.
