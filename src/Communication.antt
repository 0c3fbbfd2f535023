-- ===== src/Communication.antt =====
-- src/communication/ and src/grpc/: how the controllers reach the services, in one process or from another.
pub mod Interfaces
pub mod Direct
pub mod Binding
pub mod Pool
pub mod Http
pub mod Grpc
