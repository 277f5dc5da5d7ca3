-- ===== src/Marshal/Wides.antt =====
-- The round trip of wide characters through `sv2ptr` and `ptr2sv`.
use fiction.Env.{Env}
