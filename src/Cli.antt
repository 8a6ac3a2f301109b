-- ===== src/Cli.antt =====
-- The command line client, src/cli/src/main.rs.
pub mod Host
pub mod Settings
pub mod Client
pub mod Commands
pub mod Retry
pub mod Requests
pub mod Makes
pub mod Asks
pub mod Output
pub mod Muted
pub mod Silence
pub mod Keys
pub mod Wire
pub mod Printed
pub mod Exchanged
pub mod Trip
mod Codec
mod Sample
mod Tests
