-- ===== src/Sudoku.antt =====
-- lab1/src/Sudoku/TearcherCode: the board, its neighbours, and the two solvers by back-tracking.
pub mod Neighbors
pub mod Table
pub mod Solver
pub mod Backtrack
pub mod Rules
pub mod Spaces
pub mod Search
pub mod Solutions
pub mod Ready
pub mod Decide
pub mod Agree
pub mod Input
pub mod Cache
pub mod Answers
pub mod Solved
pub mod Tally
pub mod Groups
pub mod Once
pub mod Accepts
pub mod Program
pub mod Outcome
