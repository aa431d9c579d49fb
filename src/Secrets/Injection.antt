-- ===== src/Secrets/Injection.antt =====
-- The environment that the secrets of a job give to its commands.
