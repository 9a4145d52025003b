-- ===== src/Durable/Joins.antt =====
-- What join of reaper/promise.py needs before it gives a promise.
use reaper.Durable.Context.{Context}
