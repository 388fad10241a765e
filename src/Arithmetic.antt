-- ===== src/Arithmetic.antt =====
-- Arithmetic expansion, src/arithmetic.c: the scanner (Token), arithmetic on `long` (Long), the
-- variables of the frame (Variables) and the precedence-climbing evaluator (Eval).
pub mod Outcome
pub mod Long
pub mod Token
pub mod Variables
pub mod Eval
pub mod Decimal
pub mod Scan
pub mod Literals
pub mod Values
pub mod Operators
pub mod Shrinks
pub mod Total
