-- ===== src/Dance.antt =====
-- The dancing links of lab1: a sparse matrix as rings of nodes, in
-- lab1/src/Sudoku/TearcherCode/sudoku_dancing_links.cc and in lab1/src/Sudoku/DLX.h.
pub mod Links
pub mod Hide
pub mod Rings
pub mod Loops
pub mod Cover
pub mod Grid
pub mod Solve
pub mod Dlx
pub mod Recover
pub mod Candidates
pub mod Line
