-- ===== src/Communication/Grpc.antt =====
-- The services of another process by gRPC: what the two sides say to each other, and both sides.
pub mod Messages
pub mod Server
pub mod Client
pub mod RepositoryClient
pub mod Channel
pub mod Remote
