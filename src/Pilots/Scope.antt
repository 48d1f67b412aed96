-- ===== src/Pilots/Scope.antt =====
-- Pilots that control a scope: at most one a scope, and only ready ones go live.
use clycites_platform.Prelude.{
  ℕ, zero, suc, ◌≡◌, ◌≢◌, refl, sym, ap, ◌∙◌, ◌⊎◌, inl, inr, Bool, true, false, not, Option, none,
  some, List, [], ◌∷◌, ok, >>=-eq-ok, throw_if-eq-ok, or_throw, arith, ◌==◌, get_elem?, set,
}
use clycites_platform.Pilots.{
  PilotStatus, Action, Pilot, Failure, not_found, permission_denied, version_conflict,
  invalid_state_transition, Readiness, resolve_pilot_transition, is_active_scope, same_scope,
  controls_scope, has_overlap, has_other_overlap, assert_transition_guards, moves_pilot, transition,
}

-- No two pilots of one scope have a status that controls it.
unfoldable pub IsExclusive : List Pilot → Type 0
IsExclusive ps =
    (i j : ℕ) (p q : Pilot)
    → get_elem? ps i ≡ some p
    → get_elem? ps j ≡ some q
    → i ≢ j
    → is_active_scope p.status ≡ true
    → is_active_scope q.status ≡ true
    → same_scope p q ≡ false

pub get_elem?-set-cases :
    (ps : List Pilot) (i j : ℕ) (p q : Pilot)
    → get_elem? (set ps i p) j ≡ some q
    → ((j ≡ i) × (q ≡ p)) ⊎ (get_elem? ps j ≡ some q)
get_elem?-set-cases [] i j p q h = cc
get_elem?-set-cases (x ∷ ps) zero zero p q h = inl (refl, cc)
get_elem?-set-cases (x ∷ ps) zero (suc j) p q h = inr h
get_elem?-set-cases (x ∷ ps) (suc i) zero p q h = inr h
get_elem?-set-cases (x ∷ ps) (suc i) (suc j) p q h = elim (get_elem?-set-cases ps i j p q h) [
  | inl same ↦ inl (ap suc same.0, same.1)
  | inr kept ↦ inr kept
]

has_overlap-controls :
    (p : Pilot) (ps : List Pilot) (j : ℕ) (q : Pilot)
    → has_overlap p ps ≡ false
    → get_elem? ps j ≡ some q
    → controls_scope p q ≡ false
has_overlap-controls p [] j q h found = cc
has_overlap-controls p (x ∷ ps) zero q h found =
    let same : x ≡ q = cc in rw (sym same) (ground arith)
has_overlap-controls p (x ∷ ps) (suc j) q h found =
    has_overlap-controls p ps j q (ground arith) found

has_other_overlap-controls :
    (p : Pilot) (i : ℕ) (ps : List Pilot) (j : ℕ) (q : Pilot)
    → has_other_overlap p i ps ≡ false
    → get_elem? ps j ≡ some q
    → i ≢ j
    → controls_scope p q ≡ false
unfolding has_other_overlap
has_other_overlap-controls p i [] j q h found apart = cc
has_other_overlap-controls p zero (x ∷ ps) zero q h found apart = absurd (apart refl)
has_other_overlap-controls p zero (x ∷ ps) (suc j) q h found apart =
    has_overlap-controls p ps j q h found
has_other_overlap-controls p (suc i) (x ∷ ps) zero q h found apart =
    let same : x ≡ q = cc in rw (sym same) (ground arith)
has_other_overlap-controls p (suc i) (x ∷ ps) (suc j) q h found apart =
    has_other_overlap-controls p i ps j q (ground arith) found (λ e. apart (ap suc e))

same_scope_comm : (p q : Pilot) → same_scope p q ≡ same_scope q p
same_scope_comm p q = ground arith

-- The replacement does not share its scope with another pilot that controls one.
replaced_apart :
    (ps : List Pilot) (i b : ℕ) (p e r : Pilot)
    → ((q : Pilot) → same_scope e q ≡ same_scope p q)
    → has_other_overlap p i ps ≡ false
    → get_elem? ps b ≡ some r
    → i ≢ b
    → is_active_scope r.status ≡ true
    → same_scope e r ≡ false
replaced_apart ps i b p e r scope free at_b apart active_r =
    let uncontrolled = has_other_overlap-controls p i ps b r free at_b apart in
    scope r ∙ ground arith

-- A pilot that is replaced by one of the same scope that controls it only if no other does.
pub IsExclusive-set :
    (ps : List Pilot) (i : ℕ) (p e : Pilot)
    → get_elem? ps i ≡ some p
    → ((q : Pilot) → same_scope e q ≡ same_scope p q)
    → (is_active_scope e.status ≡ true → has_other_overlap p i ps ≡ false)
    → IsExclusive ps
    → IsExclusive (set ps i e)
unfolding IsExclusive
IsExclusive-set ps i p e found scope free exclusive a b q r at_a at_b apart active_q active_r =
    elim (get_elem?-set-cases ps i a e q at_a) [
      | inl new_q ↦ elim (get_elem?-set-cases ps i b e r at_b) [
        | inl new_r ↦ absurd (apart (omega (arith, new_q.0, new_r.0)))
        | inr old_r ↦
            let active_e : is_active_scope e.status ≡ true = rw⁻¹ new_q.1 active_q in
            rw new_q.1 (
              replaced_apart ps i b p e r scope (free active_e) old_r (λ k. apart (new_q.0 ∙ k))
                active_r)
      ]
      | inr old_q ↦ elim (get_elem?-set-cases ps i b e r at_b) [
        | inl new_r ↦
            let active_e : is_active_scope e.status ≡ true = rw⁻¹ new_r.1 active_r in
            same_scope_comm q r
            ∙ rw new_r.1 (
                replaced_apart ps i a p e q scope (free active_e) old_q
                  (λ k. apart (sym k ∙ sym new_r.0)) active_q)
        | inr old_r ↦ exclusive a b q r old_q old_r apart active_q active_r
      ]
    ]

pub moves_pilot-same_scope :
    (now : ℕ) (action : Action) (status : PilotStatus) (p q : Pilot)
    → same_scope (moves_pilot now action status p) q ≡ same_scope p q
moves_pilot-same_scope now action status p q = ground arith

-- What a transition that goes through has found and done.
pub record Transitioned (now : ℕ) (action : Action) (i : ℕ) (readiness : Readiness)
    (ps after : List Pilot) : Type 0 where
  pub pilot : Pilot
  pub next_status : PilotStatus
  pub found : get_elem? ps i ≡ some pilot
  pub guarded : assert_transition_guards i pilot next_status readiness ps ≡ ok tt
  pub moved : after ≡ set ps i (moves_pilot now action next_status pilot)

pub or_throw-ok :
    {A : Type 0} (o : Option A) (e : Failure) {a : A} → or_throw o e ≡ ok a → o ≡ some a
or_throw-ok none e h = cc
or_throw-ok (some a) e h = cc

pub transition-Transitioned :
    (now : ℕ) (can_access can_act : Bool) (action : Action) (i version : ℕ) (readiness : Readiness)
    (ps : List Pilot) {after : List Pilot}
    → transition now can_access can_act action i version readiness ps ≡ ok after
    → Transitioned now action i readiness ps after
unfolding transition
transition-Transitioned now can_access can_act action i version readiness ps {after} h =
    let (pilot, found, h1) = >>=-eq-ok (or_throw (get_elem? ps i) not_found) _ h in
    let (_, h2) = throw_if-eq-ok (not can_access) not_found _ h1 in
    let (_, h3) = throw_if-eq-ok (not can_act) permission_denied _ h2 in
    let (_, h4) = throw_if-eq-ok (not (pilot.version == version)) version_conflict _ h3 in
    let (next_status, _, h5) =
      >>=-eq-ok (or_throw (resolve_pilot_transition pilot.status action) invalid_state_transition) _
        h4 in
    let (_, guarded, h6) =
      >>=-eq-ok (assert_transition_guards i pilot next_status readiness ps) _ h5 in
    record {
      pilot = pilot;
      next_status = next_status;
      found = or_throw-ok (get_elem? ps i) not_found found;
      guarded = guarded;
      moved = cc;
    }
