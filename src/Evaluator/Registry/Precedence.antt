-- ===== src/Evaluator/Registry/Precedence.antt =====
-- Which method the registry finds.
