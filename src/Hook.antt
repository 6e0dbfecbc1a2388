-- ===== src/Hook.antt =====
-- src/HookRegistrar.cpp, include/cucumber-cpp/internal/hook/HookRegistrar.hpp and src/Scenario.cpp.
pub mod Registrar
pub mod Chain
pub mod Sequence
mod Tests
