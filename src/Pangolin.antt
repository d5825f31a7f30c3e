-- ===== src/Pangolin.antt =====
-- internal/pangolin/client.go: the requests and answers of the Pangolin API, the interface `API`
-- of which the reconcilers are clients, and the HTTP client that implements it.
pub mod Requests
pub mod Api
pub mod Domain
pub mod Client
pub mod Tests
