-- ===== src/Command.antt =====
-- The two programs: cmd/fizzle, the client (Fizzle), and cmd/fizzled, the server (Fizzled), with
-- what they use of packages flag and strconv.
pub mod Flags
pub mod Atoi
pub mod Failures
pub mod Fizzle
pub mod Fizzled
pub mod Examples
