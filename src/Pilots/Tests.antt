-- ===== src/Pilots/Tests.antt =====
-- A pilot that is taken from its draft to supervised live use, beside one of the same scope.
use clycites_platform.Prelude.{
  ◌≡◌, refl, true, false, none, some, List, [], ◌∷◌, get_elem?, zero, suc,
}
use clycites_platform.Pilots.{
  PilotStatus, Pilot, Readiness, approve_onboarding, start_supervised_use, transition,
}
use clycites_platform.Pilots.Scope.{IsExclusive}
use clycites_platform.Pilots.Ready.{
  PilotStep, transition_step, run_pilots, run_pilots-IsExclusive, IsReady,
  transition_goes_live-IsReady,
}

abbrev pilot_in : PilotStatus → Pilot
pilot_in status = record {
  organization = 1;
  region = 2;
  district = 3;
  status = status;
  version = 1;
  read_only = false;
  approved_at = some 5;
  paused_at = none;
  completed_at = none;
  actual_start_date = none;
}

abbrev all_ready : Readiness
all_ready = record {
  blocking_gates = 0;
  blocking_incidents = 0;
  incomplete_training = 0;
  baseline_count = 1;
}

abbrev two_reviews : List Pilot
two_reviews = pilot_in PilotStatus.readiness_review ∷ pilot_in PilotStatus.readiness_review ∷ []

two_reviews-IsExclusive : IsExclusive two_reviews
unfolding IsExclusive
two_reviews-IsExclusive zero j p q at_i at_j apart active_p active_q = cc
two_reviews-IsExclusive (suc zero) j p q at_i at_j apart active_p active_q = cc
two_reviews-IsExclusive (suc (suc i)) j p q at_i at_j apart active_p active_q = cc

-- Both are approved, of which the second is refused.
abbrev both_approved : List PilotStep
both_approved =
    transition_step 9 true true approve_onboarding 0 1 all_ready
    ∷ transition_step 9 true true approve_onboarding 1 1 all_ready
    ∷ []

run_pilots-IsExclusive_example : IsExclusive (run_pilots both_approved two_reviews)
run_pilots-IsExclusive_example =
    run_pilots-IsExclusive both_approved two_reviews two_reviews-IsExclusive

abbrev live : Pilot
live = record (pilot_in PilotStatus.supervised_live_use) { version = 2; actual_start_date = some 9 }

abbrev baseline : List Pilot
baseline = pilot_in PilotStatus.baseline_collection ∷ []

transition_goes_live-IsReady_example :
    (p : Pilot) × (get_elem? baseline 0 ≡ some p) × IsReady all_ready p
unfolding transition
transition_goes_live-IsReady_example =
    transition_goes_live-IsReady 9 true true start_supervised_use 0 1 all_ready baseline live refl
      refl refl
