-- ===== src/Tests.antt =====
-- The theorems at concrete inputs: a small application of four modules.
use python_arch_testing.Base.{eq_text}
mod Imports
mod Chosen
mod Compared
mod Flows
mod Rest
mod Structures
mod Rules
mod Signatures
mod Matches
