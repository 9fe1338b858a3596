-- ===== src/Closure.antt =====
-- src/convert.cpp: free variables and closure conversion.
pub mod FreeVars
pub mod Conversion
