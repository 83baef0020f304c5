-- ===== src/Shell.antt =====
-- p5: the shell, its parser and the evaluation of a line.
pub mod Parser
pub mod Words
pub mod Doubled
pub mod Run
pub mod Lines
pub mod Printed
pub mod Signs
pub mod Parsed
pub mod Pipelines
pub mod Waiting
pub mod Counts
pub mod Steps
pub mod Evaluation
pub mod LeftOut
pub mod Main
pub mod Session
pub mod Ends
pub mod Examples
