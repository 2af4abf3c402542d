-- ===== src/Peers.antt =====
-- internal/a2acall: the tool that calls a peer agent, with the verification of the peer's card.
pub mod Denials
pub mod Card
pub mod Invoke
pub mod Call
