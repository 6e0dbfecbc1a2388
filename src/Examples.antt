-- ===== src/Examples.antt =====
-- examples: the programs that show the library's use.
pub mod Calc
pub mod CalcQt
pub mod ActiveActors
pub mod Scoped
pub mod Showcase
mod Tests
