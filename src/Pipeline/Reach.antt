-- ===== src/Pipeline/Reach.antt =====
-- Which registrations can run at all (middleware.go: appliesTo, operationCovers; pipeline.go:
-- middlewareNeverRunsOnStep, scopeMiddlewares).
use maniflex.Request.Operation.{Operation}
