-- ===== src/Tests.antt =====
-- Runs of the model at concrete inputs, and the theorems at inputs that meet their hypotheses.
mod Flows
mod Classes
mod Payloads
mod Hosts
mod Hints
mod Output
mod Attaching
mod Packets
mod Arguments
mod Kernel
mod Sockets
mod Resolving
mod Running
mod Selftesting
