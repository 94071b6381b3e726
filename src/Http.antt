-- ===== src/Http.antt =====
-- internal/http: the query parameters and bodies of requests, the middleware, the handlers, and the
-- answers.
pub mod Options
pub mod Sorting
pub mod Bounds
pub mod Pagination
pub mod Responses
pub mod Middleware
pub mod Sessions
pub mod Requests
pub mod Handlers
