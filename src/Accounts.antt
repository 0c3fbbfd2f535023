-- ===== src/Accounts.antt =====
-- The accounts of the program and their tokens: src/models/, src/repositories/, src/repository/ and
-- src/services/impl/.
pub mod Models
pub mod Prisma
pub mod TokenDao
pub mod UserDao
pub mod TokenRepository
pub mod UserRepository
pub mod Platform
pub mod Auth
pub mod Users
