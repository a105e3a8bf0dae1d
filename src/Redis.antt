-- ===== src/Redis.antt =====
-- pkgs/redis: the Redis server as the program sees it, and the client functions over it.
pub mod Server
pub mod Keys
pub mod Client
pub mod Errors
pub mod Reading
pub mod Sets
