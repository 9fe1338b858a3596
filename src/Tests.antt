-- ===== src/Tests.antt =====
-- Runs on inputs of test/*.cpp, and each theorem at an input.
mod AnfTests
mod FreeVarsTests
mod ConversionTests
mod RenameTests
mod HoistTests
mod CompileTests
mod LexerTests
mod ParserTests
mod ArenaTests
mod PrintTests
mod ReplTests
mod Recorder
mod LowerTests
mod CompiledTests
mod SemanticsTests
mod SessionTests
mod DestructorTests
