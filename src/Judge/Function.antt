-- ===== src/Judge/Function.antt =====
-- modules/judge/store/func.go: the functions of strategies, such as all(#3).
pub mod Compute
pub mod Loops
pub mod Extremes
pub mod Meaning
pub mod Summary
pub mod Total
pub mod Parse
pub mod Printed
pub mod RoundTrip
