-- ===== src/Contract/Liquidity/Success.antt =====
-- When a withdrawal succeeds, and what it pays.
