-- ===== src/Packet.antt =====
-- rns_icn/packet.py: the packet types and their wire formats, and the envelope `parse_packet`.
pub mod Header
pub mod Selector
pub mod Interest
pub mod Metadata
pub mod Data
pub mod Subscribe
pub mod Peers
pub mod Invalidate
pub mod Nack
pub mod Envelope
mod Runs
