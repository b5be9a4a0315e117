-- ===== src/Tests.antt =====
-- Runs of the definitions at concrete inputs, and the instances of the theorems.
pub mod Machine
pub mod Analyzer
pub mod Parser
pub mod RoundTrip
pub mod Transpiler
pub mod Printers
pub mod Lexer
pub mod Compiler
