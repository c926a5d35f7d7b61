-- ===== src/Tests.antt =====
-- Runs of the model on concrete inputs, and the theorems at inputs that meet their hypotheses.
mod Serial
mod Receive
mod Lanplus
mod Sol
mod Hex
mod Entries
mod Fru
mod Controller
mod Open
mod Sdr
mod Hpm
mod Lan
mod Terminal
