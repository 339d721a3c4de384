-- ===== src/Core.antt =====
-- src/noxipher/core: the exception classes with the result of a call that may raise, and the
-- networks with their configurations.
pub mod Exceptions
pub mod Config
