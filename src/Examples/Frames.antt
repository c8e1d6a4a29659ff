-- ===== src/Examples/Frames.antt =====
-- What branches and inputs leave alone, and when coordinators are equal.
use cadmia.Prelude.{◌≡◌, ◌↔◌, refl, true, text_eq, contains, codes}
use cadmia.Prelude.Int.{pos}
use cadmia.Prelude.Maps.{find}
use cadmia.Scalar.Instances.{int_scalar}
use cadmia.Interval.{equals}
use cadmia.Coordinator.Interface.{engine_equals}
use cadmia.Coordinator.Frame.{execute_branch_frame, x_function_frame}
use cadmia.Coordinator.Equality.{AllAgree, engine_equals_iff}
use cadmia.Examples.Coordinators.{
  child, span, running, after_a, after_input, fire_a, outcome, fires_a, takes_three,
}
use cadmia.Examples.Routing.{wired, wired-IsDistinct}

execute_branch_frame_example : find (codes "b") after_a.engines ≡ find (codes "b") running.engines
unfolding text_eq contains find
execute_branch_frame_example =
    execute_branch_frame child (codes "b") fire_a running after_a outcome refl refl refl refl
      fires_a

x_function_frame_example : find (codes "b") after_input.engines ≡ find (codes "b") running.engines
unfolding text_eq contains
x_function_frame_example =
    x_function_frame child (codes "b") (span (pos 3) (pos 3)) (span (pos 2) (pos 2)) running
      after_input (refl, (refl, (refl, tt))) takes_three

engine_equals_iff_example : (engine_equals child wired running ≡ true) ↔ (
    (equals wired.t_next running.t_next ≡ true)
    × (equals wired.t_last running.t_last ≡ true)
    × AllAgree child wired.engines running.engines)
engine_equals_iff_example = engine_equals_iff child wired running wired-IsDistinct wired-IsDistinct
