-- ===== src/Combine/Tests.antt =====
-- The combiners on functions of the counting machine.
use fcd.Base.{◌≡◌, refl, some, arith}
use fcd.Expr.Defs.{
  NAryOperator, short_circuit_and, smaller_than, greater_or_equal_to, token, nary, Expression, node,
  nil, cons,
}
use fcd.Expr.Equality.{equals}
use fcd.Expr.Negate.{count_negations, count_negation_depth}
use fcd.Combine.Tree.{
  pre_tested, post_tested, Statements, append, if_else, loop, nil as no_more, cons as more, size,
}
use fcd.Combine.Outcome.{Gives, finished}
use fcd.Combine.Consecutive.{
  run_consecutive_combiner, optimize_sequence, combine_list, compare_conditions, visit_all, same,
}
use fcd.Combine.Kept.{Kept}
use fcd.Combine.Nested.{
  run_nested_combiner, structurize_back, structurize_last, structurize_loop, nest_all, before_back,
  back, nest_if_else,
}
use fcd.Combine.NestedKept.{Nested}
use fcd.Combine.Nesting.{run_nested_combiner-Nested}
use fcd.Combine.Combined.{run_consecutive_combiner-Kept}
use fcd.Combine.Counter.{
  below, below_tested, breaks, conditions, constants, count, flag, flag_tested, meaning, negated,
  not_flag,
}

-- do { count; if (flag) break; if (!flag) count; } while (below);
abbrev counting : Statements
counting =
    more
      (loop below post_tested (
        more count (
          more (if_else flag (more breaks no_more) no_more)
            (more (if_else not_flag (more count no_more) no_more) no_more))))
      no_more

-- The two tests of the flag become one, which breaks when it is set, and counts otherwise.
counting-combined :
    run_consecutive_combiner constants counting 10
    ≡ finished
        (more
          (loop below post_tested
            (more count (more (if_else flag (more breaks no_more) (more count no_more)) no_more)))
          no_more)
        10
unfolding run_consecutive_combiner optimize_sequence combine_list compare_conditions visit_all
    equals append count_negations count_negation_depth size
counting-combined = refl

run_consecutive_combiner-Kept_example :
    Gives 10 (Kept conditions counting) (run_consecutive_combiner constants counting 10)
unfolding conditions
run_consecutive_combiner-Kept_example =
    run_consecutive_combiner-Kept conditions counting 10
      (
        (
          below_tested,
          (
            tt,
            (
              ((flag_tested, (tt, tt), tt), (tt, tt), tt),
              (
                ((negated 14 flag (omega arith) flag_tested, ((λ st. refl), tt), tt), (tt, tt), tt),
                tt,
              ),
            ),
          ),
        ),
        tt,
      )
      (omega arith)

-- `operator==` does not look at the operator, so opposite tests are taken for the same one.
abbrev compared_with : NAryOperator → Expression
compared_with op = node 7 (nary op) (cons flag (cons below nil))

opposite_comparisons :
    compare_conditions (compared_with greater_or_equal_to) (compared_with smaller_than) ≡ some same
unfolding compare_conditions equals
opposite_comparisons = refl

-- while (true) { count; if (!flag) { if (flag) count; } else break; }
abbrev endless_loop : Statements
endless_loop =
    more
      (loop (node 1 (token 0 "true") nil) pre_tested (
        more count (
          more
            (if_else not_flag (more (if_else flag (more count no_more) no_more) no_more)
              (more breaks no_more))
            no_more)))
      no_more

-- do { count; if (!flag) if (flag) count; } while (true && !flag)
endless_loop-nested :
    run_nested_combiner constants endless_loop 20
    ≡ finished
        (more
          (loop
            (node 20
              (nary short_circuit_and)
              (cons (node 1 (token 0 "true") nil) (cons not_flag nil)))
            post_tested
            (more count (
              more
                (if_else not_flag
                  (more (if_else flag (more count no_more) no_more) no_more)
                  no_more)
                no_more)))
          no_more)
        21
unfolding run_nested_combiner nest_all structurize_loop structurize_last structurize_back
    before_back back nest_if_else append
endless_loop-nested = refl

run_nested_combiner-Nested_example :
    Gives 0 (Nested meaning endless_loop) (run_nested_combiner constants endless_loop 20)
unfolding meaning
run_nested_combiner-Nested_example = run_nested_combiner-Nested meaning endless_loop 20 (
  (
    (λ st. refl),
    (
      tt,
      (
        (
          (tt, ((((λ st. refl), tt), tt), tt), (tt, tt)),
          (((tt, ((λ st. refl), tt), tt), (tt, tt), tt), tt),
          ((λ h. cc), tt),
        ),
        tt,
      ),
    ),
  ),
  tt,
)
