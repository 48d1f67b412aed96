-- ===== src/Pilots/Ready.antt =====
-- What every sequence of transitions and decisions keeps, and what going live asks for.
use clycites_platform.Prelude.{
  ℕ, ◌<◌, ◌≡◌, refl, sym, ap, ◌∙◌, Bool, true, false, not, Option, some, is_some, List, [], ◌∷◌,
  Result, ok, err, >>=-eq-ok, throw_if-eq-ok, or_throw, arith, ◌==◌, get_elem?, set, get_elem?-set,
}
use clycites_platform.Pilots.{
  PilotStatus, Action, Pilot, Failure, not_found, decision_approval_required, evidence_incomplete,
  Readiness, DecisionRow, is_active_scope, is_live_use, has_other_overlap, assert_transition_guards,
  moves_pilot, transition, target_status, decides_pilot, approve_decision,
}
use clycites_platform.Pilots.Scope.{
  IsExclusive, IsExclusive-set, moves_pilot-same_scope, transition-Transitioned, or_throw-ok,
}

guards_free :
    (i : ℕ) (p : Pilot) (next : PilotStatus) (readiness : Readiness) (ps : List Pilot)
    → assert_transition_guards i p next readiness ps ≡ ok tt
    → is_active_scope next ≡ true
    → has_other_overlap p i ps ≡ false
unfolding assert_transition_guards
guards_free i p next readiness ps h k = ground arith

abbrev pub IsReady : Readiness → Pilot → Type 0
IsReady readiness p =
    (is_some p.approved_at ≡ true)
    × (readiness.blocking_gates ≡ 0)
    × (readiness.blocking_incidents ≡ 0)
    × (readiness.incomplete_training ≡ 0)
    × (0 < readiness.baseline_count)

guards-IsReady :
    (i : ℕ) (p : Pilot) (next : PilotStatus) (readiness : Readiness) (ps : List Pilot)
    → assert_transition_guards i p next readiness ps ≡ ok tt
    → is_live_use next ≡ true
    → IsReady readiness p
unfolding assert_transition_guards
guards-IsReady i p next readiness ps h k = ground arith

-- A call on the pilots with its arguments.
pub data PilotStep : Type 0 where
  transition_step :
      (now : ℕ) (can_access can_act : Bool) (action : Action) (i version : ℕ)
      (readiness : Readiness)
      → PilotStep
  decision_step :
      (now : ℕ) (can_access : Bool) (approver i hash current_hash : ℕ) (row : Option DecisionRow)
      → PilotStep

unfoldable pub apply_pilot : PilotStep → List Pilot → Result Failure (List Pilot)
apply_pilot (transition_step now can_access can_act action i version readiness) ps =
    transition now can_access can_act action i version readiness ps
apply_pilot (decision_step now can_access approver i hash current_hash row) ps =
    approve_decision now can_access approver i hash current_hash row ps

abbrev pub kept_pilots : List Pilot → Result Failure (List Pilot) → List Pilot
kept_pilots ps (ok after) = after
kept_pilots ps (err e) = ps

-- One after the other; a throw rolls its transaction back.
unfoldable pub run_pilots : List PilotStep → List Pilot → List Pilot
run_pilots [] ps = ps
run_pilots (step ∷ steps) ps = run_pilots steps (kept_pilots ps (apply_pilot step ps))

transition-IsExclusive :
    (now : ℕ) (can_access can_act : Bool) (action : Action) (i version : ℕ) (readiness : Readiness)
    (ps : List Pilot) {after : List Pilot}
    → IsExclusive ps
    → transition now can_access can_act action i version readiness ps ≡ ok after
    → IsExclusive after
transition-IsExclusive now can_access can_act action i version readiness ps {after} exclusive h =
    let t = transition-Transitioned now can_access can_act action i version readiness ps h in
    rw t.moved (
      IsExclusive-set ps i t.pilot (moves_pilot now action t.next_status t.pilot) t.found
        (moves_pilot-same_scope now action t.next_status t.pilot)
        (λ k. guards_free i t.pilot t.next_status readiness ps t.guarded k) exclusive)

approve_decision-IsExclusive :
    (now : ℕ) (can_access : Bool) (approver i hash current_hash : ℕ) (row : Option DecisionRow)
    (ps : List Pilot) {after : List Pilot}
    → IsExclusive ps
    → approve_decision now can_access approver i hash current_hash row ps ≡ ok after
    → IsExclusive after
unfolding approve_decision
approve_decision-IsExclusive now can_access approver i hash current_hash row ps {after} exclusive
      h =
    let (pilot, found, h1) = >>=-eq-ok (or_throw (get_elem? ps i) not_found) _ h in
    let (_, h2) = throw_if-eq-ok (not can_access) not_found _ h1 in
    let (source, _, h3) = >>=-eq-ok (or_throw row not_found) _ h2 in
    let (_, h4) = throw_if-eq-ok (source.decided_by == approver) decision_approval_required _ h3 in
    let (_, h5) =
      throw_if-eq-ok (not (source.evidence_snapshot_hash == hash)) evidence_incomplete _ h4 in
    let (_, h6) =
      throw_if-eq-ok (not (source.evidence_snapshot_hash == current_hash)) evidence_incomplete _
        h5 in
    let e = decides_pilot now (target_status source.decision) pilot in
    let moved : after ≡ set ps i e = cc in
    rw moved (
      IsExclusive-set ps i pilot e (or_throw-ok (get_elem? ps i) not_found found) (λ q. refl)
        (λ k. ground arith) exclusive)

kept_pilots-IsExclusive :
    (r : Result Failure (List Pilot)) (ps : List Pilot)
    → IsExclusive ps
    → ((after : List Pilot) → r ≡ ok after → IsExclusive after)
    → IsExclusive (kept_pilots ps r)
kept_pilots-IsExclusive (ok after) ps exclusive k = k after refl
kept_pilots-IsExclusive (err e) ps exclusive k = exclusive

apply_pilot-IsExclusive :
    (step : PilotStep) (ps after : List Pilot)
    → IsExclusive ps
    → apply_pilot step ps ≡ ok after
    → IsExclusive after
unfolding apply_pilot
apply_pilot-IsExclusive (transition_step now can_access can_act action i version readiness) ps after
      exclusive h =
    transition-IsExclusive now can_access can_act action i version readiness ps exclusive h
apply_pilot-IsExclusive (decision_step now can_access approver i hash current_hash row) ps after
      exclusive h =
    approve_decision-IsExclusive now can_access approver i hash current_hash row ps exclusive h

-- If no two pilots of one scope control it, then none do after any sequence of transitions and
-- decisions that run one after the other, failed ones included.
pub run_pilots-IsExclusive :
    (steps : List PilotStep) (ps : List Pilot) → IsExclusive ps → IsExclusive (run_pilots steps ps)
unfolding run_pilots
run_pilots-IsExclusive [] ps exclusive = exclusive
run_pilots-IsExclusive (step ∷ steps) ps exclusive =
    run_pilots-IsExclusive steps (kept_pilots ps (apply_pilot step ps)) (
      kept_pilots-IsExclusive (apply_pilot step ps) ps exclusive
        (λ after h. apply_pilot-IsExclusive step ps after exclusive h))

-- A transition that leaves a pilot in live use found it approved, no blocking gate or incident, all
-- required training done and a verified baseline.
pub transition_goes_live-IsReady :
    (now : ℕ) (can_access can_act : Bool) (action : Action) (i version : ℕ) (readiness : Readiness)
    (ps : List Pilot) {after : List Pilot} (q : Pilot)
    → transition now can_access can_act action i version readiness ps ≡ ok after
    → get_elem? after i ≡ some q
    → is_live_use q.status ≡ true
    → (p : Pilot) × (get_elem? ps i ≡ some p) × IsReady readiness p
transition_goes_live-IsReady now can_access can_act action i version readiness ps {after} q h at_i
      live =
    let t = transition-Transitioned now can_access can_act action i version readiness ps h in
    let e = moves_pilot now action t.next_status t.pilot in
    let there : get_elem? after i ≡ some e =
      ap (λ x. get_elem? x i) t.moved ∙ get_elem?-set ps i t.pilot e t.found in
    let same : q ≡ e = cc in
    let goes_live : is_live_use t.next_status ≡ true =
      sym (ap (λ (x : Pilot). is_live_use x.status) same) ∙ live in
    (t.pilot, t.found, guards-IsReady i t.pilot t.next_status readiness ps t.guarded goes_live)
