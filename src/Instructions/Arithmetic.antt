-- ===== src/Instructions/Arithmetic.antt =====
-- The handlers of the additions, subtractions, comparisons and negations.
pub mod Add
pub mod Subtract
pub mod Compare
pub mod Wide
pub mod Chain
