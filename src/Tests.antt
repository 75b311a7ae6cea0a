-- ===== src/Tests.antt =====
-- Runs of the model on small inputs, and each theorem at an input where its hypotheses hold.
mod Checksum
mod Wire
mod Packet
mod Ranges
mod Shuffle
mod Hash
mod Threads
mod Scan
mod Interleaving
mod Netdev
mod Transmit
mod Status
mod Startup
mod Opening
mod Accounts
mod Drivers
mod Routes
mod Script
mod RoundTrip
