-- ===== src/Cash.antt =====
-- userspace/cash: the shell. `Lexer` turns a line into tokens, `Parser` the tokens into a tree, and
-- `Interpreter` runs the tree on a table of symbols.
pub mod Text
pub mod Word
pub mod Token
pub mod Ast
pub mod Value
pub mod Symbol
pub mod CommandStart
pub mod Lexer
pub mod Parser
pub mod Command
pub mod Program
pub mod Interpreter
mod Info
pub mod Shell
mod Tests
