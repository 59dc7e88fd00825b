-- ===== src/Examples.antt =====
-- Concrete inputs for the statements about the model, with numbers for the JSON values.
mod Data
mod Engine
mod Store
mod Commands
mod Machines
mod Domain
mod Timers
