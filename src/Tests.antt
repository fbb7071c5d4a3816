-- ===== src/Tests.antt =====
-- The theorems at concrete inputs, by the parts of the router.
mod FirewallCases
mod TopologyCases
mod ProtocolCases
mod MessageCases
mod ArpCases
mod PacketCases
mod LeavingCases
mod ServerCases
