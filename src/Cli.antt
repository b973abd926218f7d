-- ===== src/Cli.antt =====
-- The command line client, packages/cli: the client of the API, the commands, and what the backend reads of
-- their requests.
pub mod Client
pub mod Commands
pub mod Filters
pub mod Resolving
pub mod Tests
