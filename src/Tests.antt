-- ===== src/Tests.antt =====
-- Runs of the modelled functions, and each theorem at a concrete input.
mod PropertyString
mod QemuNetwork
mod Drives
mod Devices
mod Lists
mod Helpers
mod State
mod Snapshots
mod Store
mod Grouping
mod Forms
