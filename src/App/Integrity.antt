-- ===== src/App/Integrity.antt =====
-- Sequences of requests to the application of api/app/__init__.py, and the constraints of the schema.
use gpca_v.Env.{Env}
use gpca_v.Run.Keeps.{Keeps}
