-- ===== src/Expression.antt =====
-- src/CucumberExpression.cpp and include/cucumber-cpp/internal/utils/CucumberExpression.hpp.
pub mod Error
pub mod Types
pub mod Escape
pub mod Validate
pub mod Alternatives
pub mod Parser
pub mod Transform
mod Tests
