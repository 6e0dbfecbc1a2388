-- ===== src/Step.antt =====
-- include/cucumber-cpp/internal/step/StepManager.hpp and src/StepManager.cpp, with src/drivers.
pub mod Body
pub mod Drivers
pub mod Invoke
pub mod Manager
pub mod Outcome
pub mod Registry
pub mod Registration
pub mod Results
mod Tests
