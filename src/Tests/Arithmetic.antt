-- ===== src/Tests/Arithmetic.antt =====
-- Runs of the arithmetic evaluator.
use Prim.Native.String.{String}
use migash.Prelude.{◌≡◌, ◌≢◌, refl, [], ◌∷◌, some}
use migash.Prelude.Int.{ℤ, pos, negsuc, ◌+ℤ◌, ◌-ℤ◌, ◌*ℤ◌}
use migash.Arithmetic.Outcome.{Outcome, ok, failed, undefined, out_of_fuel, unexpected_tokens}
use migash.Arithmetic.Eval.{arithmetic_evaluate}
use migash.Arithmetic.Total.{arithmetic_evaluate_total}
use migash.Arithmetic.Operators.{
  expression, arithmetic_evaluate-literal, arithmetic_evaluate-binary,
}
use migash.Arithmetic.Values.{value}
use migash.Arithmetic.Variables.{string_from_long}
use migash.Arithmetic.Token.{minus}
use migash.Tests.Samples.{bytes, Bindings, plain_variables}

abbrev start : Bindings
start = (bytes "a", bytes "-7") ∷ []

run : String → Outcome ℤ × Bindings
unfolding arithmetic_evaluate ◌+ℤ◌ ◌-ℤ◌ ◌*ℤ◌
run text = arithmetic_evaluate plain_variables (some (bytes text)) start

precedence_run : run "1 + 2 * 3 - a" ≡ (ok (pos 14), start)
unfolding run
precedence_run = refl

mixed_run : run "-a/2 + -7 % 3 + ~017 * !0 +(1<2)" ≡ (ok (negsuc 12), start)
unfolding run
mixed_run = refl

-- A comma keeps the first value, and an assignment takes all that follows it.
comma_run : run "x = 5, x << 3" ≡ (ok (pos 5), (bytes "x", bytes "5") ∷ start)
unfolding run
comma_run = refl

-- Both branches of `?:` are evaluated, so the assignment of the branch not taken is made.
ternary_run : run "0 ? y = 1 : (1 ? a : 0x1F)" ≡ (ok (negsuc 6), (bytes "y", bytes "1") ∷ start)
unfolding run
ternary_run = refl

overflow_run : run "-9223372036854775807 - 2" ≡ (undefined, start)
unfolding run
overflow_run = refl

arithmetic_evaluate_total_example :
    (arithmetic_evaluate plain_variables (some (bytes "(1 + a) * 2 ?")) start).0 ≢ out_of_fuel
arithmetic_evaluate_total_example =
    arithmetic_evaluate_total plain_variables (some (bytes "(1 + a) * 2 ?")) start

arithmetic_evaluate-literal_example :
    arithmetic_evaluate plain_variables (some (string_from_long (pos 1024))) start
    ≡ (ok (pos 1024), start)
arithmetic_evaluate-literal_example = arithmetic_evaluate-literal plain_variables 1024 start refl

arithmetic_evaluate-binary_example :
    arithmetic_evaluate plain_variables (some (expression minus 3 10)) start
    ≡ (value minus 3 10, start)
arithmetic_evaluate-binary_example =
    arithmetic_evaluate-binary plain_variables minus 3 10 start refl refl refl

-- The right operand of a `||` that the left one decides is left over, so that the evaluation fails
-- where test/mgsh/test_arithmetic_ctest.c expects 1.
or_run : run "1||0" ≡ (failed unexpected_tokens, start)
unfolding run
or_run = refl
