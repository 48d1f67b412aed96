-- ===== src/Pilots.antt =====
-- Pilots (apps/api/src/pilots): the table of pilot-lifecycle.ts, `PilotsService.transition` with its
-- guards, and the change of a pilot's status by `PilotEvaluationService.approveDecision`. A region
-- and a district are only compared, so numbers stand for them; counts over other tables and the
-- principal's rights are arguments.
pub mod Scope
pub mod Ready
mod Tests
use clycites_platform.Prelude.{
  ℕ, zero, suc, ◌+◌, Bool, true, false, not, ◌&&◌, ◌||◌, Option, none, some, is_some, List, [], ◌∷◌,
  Result, ok, err, ◌>>=◌, ◌>>◌, throw_if, or_throw, ltb, ◌==◌, if◌then◌else◌, get_elem?, set,
}

pub data PilotStatus : Type 0 where
  draft readiness_review blocked approved_for_onboarding onboarding training : PilotStatus
  baseline_collection supervised_live_use active paused completed evaluating : PilotStatus
  go conditional_go no_go closed : PilotStatus

pub data Action : Type 0 where
  submit_readiness_review approve_onboarding start_onboarding start_training : Action
  start_baseline start_supervised_use activate pause resume complete : Action
  start_evaluation close : Action

pub record Pilot : Type 0 where
  pub organization : ℕ
  pub region : ℕ
  pub district : ℕ
  pub status : PilotStatus
  pub version : ℕ
  pub read_only : Bool
  pub approved_at : Option ℕ
  pub paused_at : Option ℕ
  pub completed_at : Option ℕ
  pub actual_start_date : Option ℕ

pub data Failure : Type 0 where
  not_found permission_denied version_conflict invalid_state_transition : Failure
  overlapping_scope approval_required blocking_readiness_gates : Failure
  training_required baseline_required : Failure
  decision_approval_required evidence_incomplete : Failure

-- `PILOT_TRANSITIONS[status][action]`
unfoldable pub resolve_pilot_transition : PilotStatus → Action → Option PilotStatus
resolve_pilot_transition draft submit_readiness_review = some readiness_review
resolve_pilot_transition readiness_review approve_onboarding = some approved_for_onboarding
resolve_pilot_transition blocked submit_readiness_review = some readiness_review
resolve_pilot_transition approved_for_onboarding start_onboarding = some onboarding
resolve_pilot_transition onboarding start_training = some training
resolve_pilot_transition onboarding pause = some paused
resolve_pilot_transition training start_baseline = some baseline_collection
resolve_pilot_transition training pause = some paused
resolve_pilot_transition baseline_collection start_supervised_use = some supervised_live_use
resolve_pilot_transition baseline_collection pause = some paused
resolve_pilot_transition supervised_live_use activate = some active
resolve_pilot_transition supervised_live_use pause = some paused
resolve_pilot_transition supervised_live_use complete = some completed
resolve_pilot_transition active pause = some paused
resolve_pilot_transition active complete = some completed
resolve_pilot_transition paused resume = some readiness_review
resolve_pilot_transition paused complete = some completed
resolve_pilot_transition completed start_evaluation = some evaluating
resolve_pilot_transition go close = some closed
resolve_pilot_transition conditional_go close = some closed
resolve_pilot_transition no_go close = some closed
resolve_pilot_transition _ _ = none

-- `ACTIVE_SCOPE_STATUSES`
abbrev pub is_active_scope : PilotStatus → Bool
is_active_scope approved_for_onboarding = true
is_active_scope onboarding = true
is_active_scope training = true
is_active_scope baseline_collection = true
is_active_scope supervised_live_use = true
is_active_scope active = true
is_active_scope _ = false

abbrev pub is_live_use : PilotStatus → Bool
is_live_use supervised_live_use = true
is_live_use active = true
is_live_use _ = false

abbrev pub same_scope : Pilot → Pilot → Bool
same_scope p q =
    (p.organization == q.organization) && (p.region == q.region) && (p.district == q.district)

-- `q` controls the scope of `p`.
abbrev pub controls_scope : Pilot → Pilot → Bool
controls_scope p q = same_scope p q && is_active_scope q.status

abbrev pub has_overlap : Pilot → List Pilot → Bool
has_overlap p [] = false
has_overlap p (q ∷ qs) = controls_scope p q || has_overlap p qs

-- The query leaves out the row of the pilot itself, which is the one at `i`.
unfoldable pub has_other_overlap : Pilot → ℕ → List Pilot → Bool
has_other_overlap p i [] = false
has_other_overlap p zero (q ∷ qs) = has_overlap p qs
has_other_overlap p (suc i) (q ∷ qs) = controls_scope p q || has_other_overlap p i qs

-- What the queries of `assertTransitionGuards` count.
pub record Readiness : Type 0 where
  pub blocking_gates : ℕ
  pub blocking_incidents : ℕ
  pub incomplete_training : ℕ
  pub baseline_count : ℕ

unfoldable pub assert_transition_guards :
    ℕ → Pilot → PilotStatus → Readiness → List Pilot → Result Failure (Unit {0})
unfolding has_other_overlap
assert_transition_guards i pilot next_status readiness pilots = do
  throw_if (is_active_scope next_status && has_other_overlap pilot i pilots) overlapping_scope
  throw_if (is_live_use next_status && not (is_some pilot.approved_at)) approval_required
  throw_if
      (is_live_use next_status
        && (ltb 0 readiness.blocking_gates || ltb 0 readiness.blocking_incidents))
      blocking_readiness_gates
  throw_if (is_live_use next_status && ltb 0 readiness.incomplete_training) training_required
  throw_if (is_live_use next_status && (readiness.baseline_count == 0)) baseline_required

-- The fields that an action sets besides the status and the version.
abbrev pub with_action : ℕ → Action → Pilot → Pilot
with_action now approve_onboarding p = record p { approved_at = some now }
with_action now pause p = record p { read_only = true; paused_at = some now }
with_action now resume p = record p { read_only = false; paused_at = none }
with_action now complete p = record p { read_only = true; completed_at = some now }
with_action now start_supervised_use p = record p {
  actual_start_date = if is_some p.actual_start_date then p.actual_start_date else some now;
}
with_action now _ p = p

abbrev pub moves_pilot : ℕ → Action → PilotStatus → Pilot → Pilot
moves_pilot now action next_status p = record (with_action now action p) {
  status = next_status;
  version = p.version + 1;
}

unfoldable pub transition :
    ℕ → Bool → Bool → Action → ℕ → ℕ → Readiness → List Pilot → Result Failure (List Pilot)
unfolding assert_transition_guards resolve_pilot_transition
transition now can_access can_act action i version readiness pilots = do
  pilot ← or_throw (get_elem? pilots i) not_found
  throw_if (not can_access) not_found
  throw_if (not can_act) permission_denied
  throw_if (not (pilot.version == version)) version_conflict
  next_status ← or_throw (resolve_pilot_transition pilot.status action) invalid_state_transition
  assert_transition_guards i pilot next_status readiness pilots
  ok (set pilots i (moves_pilot now action next_status pilot))

pub data PilotDecision : Type 0 where
  decide_go decide_conditional_go decide_no_go decide_pause decide_extend_pilot : PilotDecision

abbrev pub target_status : PilotDecision → PilotStatus
target_status decide_go = go
target_status decide_conditional_go = conditional_go
target_status decide_no_go = no_go
target_status decide_pause = paused
target_status decide_extend_pilot = readiness_review

pub record DecisionRow : Type 0 where
  pub decision : PilotDecision
  pub decided_by : ℕ
  pub evidence_snapshot_hash : ℕ

abbrev pub is_read_only_status : PilotStatus → Bool
is_read_only_status paused = true
is_read_only_status no_go = true
is_read_only_status _ = false

abbrev is_paused : PilotStatus → Bool
is_paused paused = true
is_paused _ = false

abbrev pub decides_pilot : ℕ → PilotStatus → Pilot → Pilot
decides_pilot now status p = record p {
  status = status;
  version = p.version + 1;
  read_only = is_read_only_status status;
  paused_at = if is_paused status then some now else p.paused_at;
}

-- The pilot's status is not looked at. `hash` is the caller's, `current_hash` that of the evidence.
unfoldable pub approve_decision :
    ℕ → Bool → ℕ → ℕ → ℕ → ℕ → Option DecisionRow → List Pilot → Result Failure (List Pilot)
approve_decision now can_access approver i hash current_hash row pilots = do
  pilot ← or_throw (get_elem? pilots i) not_found
  throw_if (not can_access) not_found
  source ← or_throw row not_found
  throw_if (source.decided_by == approver) decision_approval_required
  throw_if (not (source.evidence_snapshot_hash == hash)) evidence_incomplete
  throw_if (not (source.evidence_snapshot_hash == current_hash)) evidence_incomplete
  ok (set pilots i (decides_pilot now (target_status source.decision) pilot))
