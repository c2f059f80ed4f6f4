-- ===== src/Tests.antt =====
-- Runs of the model on small inputs, and the theorems at concrete inputs.
mod Chain
mod Disk
mod Fifos
mod Workers
mod Manager
mod Config
mod Args
mod Delivery
mod Console
mod Words
mod Watches
mod Sync
mod Store
mod Pipe
mod Actions
