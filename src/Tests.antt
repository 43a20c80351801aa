-- ===== src/Tests.antt =====
-- Concrete runs of the model, and the inputs at which the theorems apply.
mod Sound
mod Data
mod Lookup
mod Forwarding
mod Exchange
mod Rings
mod Whole
mod Answer
mod Startup
mod Boot
mod Kernel
mod Text
