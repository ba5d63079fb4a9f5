-- ===== src/Tests.antt =====
-- Runs of the models on concrete inputs.
mod Scheduling
mod Gate
mod Alerts
mod Parks
mod Numerals
mod Tallies
mod Restarts
mod Beats
mod Hook
mod Units
mod Ticks
mod Policy
