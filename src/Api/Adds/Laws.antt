-- ===== src/Api/Adds/Laws.antt =====
-- What is proved of `apiAddPeer`.
pub mod Loops
pub mod Randoms
pub mod Assigning
pub mod Answers
pub mod Keys
pub mod Requests
pub mod Duplicates
pub mod Obtained
pub mod Texts
pub mod Rows
pub mod Endings
pub mod Replying
