-- ===== src/Gateway.antt =====
-- services/gateway/app: the route table, the bearer token of a request, the rate limit, and what is
-- forwarded to the service behind a path.
pub mod Routing
pub mod Requests
pub mod Forwards
pub mod Laws
mod Tests
