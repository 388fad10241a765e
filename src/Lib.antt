-- ===== src/Lib.antt =====
-- A verification library for the Miga Shell, a POSIX shell in C.
--
-- The parts of the program that are modelled, and the modules that model them:
--
--   Arithmetic   src/arithmetic.c, the evaluator of $((...)).
--     Outcome    ArithmeticResult: a value or an error message, with the frame passed along.
--     Long       the operators on a 64-bit long.
--     Token      get_token and get_precedence; `parser->pos` is a cursor.
--     Variables  the frame's variables as an interface, string_atol and string_from_long.
--     Eval       parse_expression (parse_expression, climb, climb_on), parse_primary
--                (parse_primary, primary) and arithmetic_evaluate.
--     Values     the operators on natural numbers, apart from the code.
--     Shrinks, Total, Decimal, Scan, Literals, Operators: proofs about them.
--   Job          src/job_store.h and the functions of src/job_store.c on one job.
--     Status     the state of a job from those of its processes.
--   JobStore     the job table of src/job_store.c.
--     Valid, Sweeping, Lookup, Notify, Reach: proofs about it.
--   FdTable      the descriptor table of src/fd_table.c.
--     Slots, Gap, Valid, Keeps, Lookup, Flags: proofs about it.
--   PositionalParams   $1, $2, ... of src/positional_params.c.
--     Bounds, Shift, Access: proofs about it.
--   PatternRemoval     ${v#p} and its kin of src/pattern_removal.c.
--     Search, Best: proofs about it.
--   VariableMap  the hash table of the variables, src/variable_map.c.
--     Ring, Probe, Count, Valid: positions around the array, the probe, well-formed tables.
--     Insert, Writes, Assign, Grow: the insertions; Hole, Move, Erase, Delete: the deletions.
--     Ops, Runs  the table against a finite map over sequences of operations.
--     Multiple   variable_map_erase_multiple; Marks, Batch: proofs about it.
--   VariableStore      src/variable_store.c: the checks of names and values, the flags, the
--                environment strings and the kept environment array.
--     Names, EnvText, Lookup, Add, Steps, Preserves, ReadOnly, Environment: proofs about it.
--   Frame        the variables of a frame and its source line, from src/frame.c and
--                src/exec_frame.c.
--     Assign, Evaluator: proofs about them; Lineno: exec_frame_update_lineno.
--     Process    frame_unset_variable and frame_export_variable, which also change the environment
--                of the process; Unset, Export: proofs about them.
--   AliasStore   the aliases, src/alias_array.c and src/alias_store.c.
--     Lookup, Shift, Distinct, Keeps: proofs about the array; Runs: the store against a function
--                from names to values over sequences of operations.
--   Prelude      shared names, lists, integers and bytes.
--   Tests        runs on concrete inputs and instances of the theorems.
--
-- How C is read. A `string_t` is the list of its bytes, none of them NUL. An `int` that only
-- counts or indexes is a natural number, one that can be negative an integer. A pointer to a
-- node of a linked list is the node's address; an allocation's address is an argument, and the
-- theorems assume only that it is not the address of a live node. An array is the list of its
-- entries in use, with the fields that count them kept beside it; the array of the hash table is
-- a function from the index to an entry that may be vacant. Allocation does not fail, as
-- xalloc.c ends the program when it does. Functions that begin by rejecting a NULL argument are
-- modelled behind that check; the pattern removals, which return the empty string there, are
-- modelled with it.
--
-- Signed overflow, division of LONG_MIN by -1 and shifts by a bad amount have no meaning in C;
-- the evaluator's model returns `undefined` for them. The 32-bit hash and the 32-bit count of
-- changes of a store wrap around; the size of a hash table is a natural number. Characters are
-- classified as in the C locale.
--
-- A frame assigns to its locals where it has any and else to its own store, a store keeps its
-- variables in a hash table, and the evaluator reads and assigns through the interface
-- Variables, which Frame/Evaluator fills with the functions of the frame. The other parts meet
-- at the shell, which is not modelled: it hands the result of the word expansion to the
-- evaluator, and a variable's value to the pattern removals.
--
-- Fuel. The evaluator's functions call one another on what is left of the text, and each call
-- costs a unit of fuel. Eight units for each character and six more are enough for any text, so
-- arithmetic_evaluate is defined with that amount. The loops on the hash table, which in C run
-- until they meet a vacant entry, are given as many steps as the array has entries; a
-- well-formed table has a vacant entry, so they end before, and the theorems say so.
--
-- Not modelled: arithmetic_expand_expression, whose result is an argument of
-- arithmetic_evaluate; the mapping over a store and the copies of a store; the polling iterator
-- of the job table and its verbose listing; the names, the iteration and the listing of the
-- descriptor table; destruction; fnmatch, a parameter of the pattern removals; setenv and
-- unsetenv, parameters of the export and the removal of a variable; and the other components,
-- which are the lexer, the parser, execution, the builtins and the remaining stores.
pub mod Prelude
pub mod Job
pub mod Arithmetic
pub mod FdTable
pub mod PositionalParams
pub mod PatternRemoval
pub mod VariableMap
pub mod VariableStore
pub mod Frame
pub mod AliasStore
pub mod Tests
pub mod JobStore
