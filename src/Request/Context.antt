-- ===== src/Request/Context.antt =====
-- The per-request context: the model, the parsed body and the stamps of the server, the typed
-- record that mirrors the body, the response, and the trace log (context.go, typed_body.go,
-- request_body.go, steps.go: strippedFromWrite, stripClientWrites).
--
-- A Go value in the body is `any`: `none` is nil. The types of reflect are names with a kind;
-- reflect's conversion between two numeric types and its zero values come with the section.
pub mod Map
pub mod Types
pub mod Body
