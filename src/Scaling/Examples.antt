-- ===== src/Scaling/Examples.antt =====
-- Runs on small inputs, and each theorem at an input that meets its hypotheses.
use self_optimizing_competit.Base.{◌≡◌, refl, true, arith, ◌*◌}
use self_optimizing_competit.RateLimit.Metrics.{second}
use self_optimizing_competit.Scaling
use self_optimizing_competit.Scaling.{
  ScalingPolicy, ScalingOrchestrator, add_policy, record_metric, scaling_pass, get_instance_count,
  evaluate, ask,
}
use self_optimizing_competit.Scaling.History.{IsScaled}
use self_optimizing_competit.Scaling.History.Reach
use self_optimizing_competit.Scaling.History.Reach.{Step, reach-IsScaled}
use self_optimizing_competit.Scaling.Evaluation.{IsVerdict, evaluate-IsVerdict}

-- From one instance to three, two metrics at a time.
abbrev policy : ScalingPolicy
policy = record {
  id = "p1";
  service_name = "search";
  scale_up_threshold = 80;
  scale_down_threshold = 20;
  min_instances = 1;
  max_instances = 3;
  scale_up_increment = 1;
  scale_down_increment = 1;
  cooldown_seconds = 300;
  enabled = true;
  evaluation_periods = 2;
}

abbrev watched : ScalingOrchestrator
unfolding Scaling.init add_policy record_metric
watched = record_metric "search" 95 (record_metric "search" 70 (add_policy policy Scaling.init))

grows : get_instance_count "search" (scaling_pass second watched) ≡ 2
unfolding watched Scaling.init add_policy record_metric scaling_pass get_instance_count evaluate
    Scaling.scale_service Scaling.execute_scaling
grows = refl

-- The second pass comes within the cooldown.
rests : scaling_pass (2 * second) (scaling_pass second watched) ≡ scaling_pass second watched
unfolding watched Scaling.init add_policy record_metric scaling_pass evaluate Scaling.scale_service
    Scaling.execute_scaling
rests = refl

watched_reached : Reach.Reach (scaling_pass second watched)
unfolding watched Scaling.init add_policy record_metric
watched_reached =
    Reach.next
      (Reach.next
        (Reach.next (Reach.next Reach.here (Reach.added policy refl refl (omega arith)))
          (Reach.measured "search" 70))
        (Reach.measured "search" 95))
      (Reach.passed second)

reach-IsScaled_example : IsScaled (scaling_pass second watched)
reach-IsScaled_example = reach-IsScaled (scaling_pass second watched) watched_reached

asks_for_two : evaluate second policy watched ≡ ask 2
unfolding watched Scaling.init add_policy record_metric evaluate
asks_for_two = refl

evaluate-IsVerdict_example : IsVerdict second 1 policy watched (evaluate second policy watched)
unfolding watched Scaling.init add_policy record_metric
evaluate-IsVerdict_example =
    evaluate-IsVerdict second 1 policy watched refl (omega arith) (omega arith)
