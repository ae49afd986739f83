-- ===== src/BlockParty.antt =====
-- block_party/src: futures over blocking waits.
pub mod Mailbox
pub mod Pool
pub mod Front
mod Tests
