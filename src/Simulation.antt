-- ===== src/Simulation.antt =====
-- The compiled program on the machine does what the big-step relation says.
pub mod Setup
pub mod Endings
pub mod Calls
pub mod Does
pub mod Expressions
pub mod Invoke
pub mod CallExprs
pub mod Statements
pub mod Simple
pub mod Branching
pub mod Looping
pub mod Bodies
pub mod Correct
pub mod Programs
pub mod Execution
pub mod Targets
