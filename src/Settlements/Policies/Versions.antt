-- ===== src/Settlements/Policies/Versions.antt =====
-- At most one version of a deduction policy is active, and somebody else than its author approved it
-- (apps/api/src/settlements/settlements.service.ts).
use clycites_platform.Prelude.{
  ℕ, zero, suc, ◌≤◌, ◌≡◌, ◌≢◌, refl, sym, ap, ◌∙◌, true, not, ◌&&◌, Bool-cases, inl, inr, some,
  List, [], ◌∷◌, map, String, ok, arith, ◌==◌, if◌then◌else◌, get_elem?, sum_by, sum_by-append,
  sum_by-set, All, All-append, All-set, text_eq, text_eq_iff, Ensures, Ensures-ok, Ensures-throw_if,
  Ensures-or_throw,
}
use clycites_platform.Settlements.Policies.{
  PolicyVersion, PolicyFailure, drafted, create_deduction_policy, is_draft, is_active, retire,
  activated, approve_deduction_policy,
}

abbrev pub counts : String → PolicyVersion → ℕ
counts code p = if text_eq p.code code && is_active p.status then 1 else 0

unfoldable pub active_count : String → List PolicyVersion → ℕ
active_count code = sum_by (counts code)

abbrev pub FourEyes : PolicyVersion → Type 0
FourEyes p =
    is_active p.status ≡ true
    → (approver : ℕ) × (p.approved_by ≡ some approver) × (p.created_by ≢ approver)

pub record IsOrderly (policies : List PolicyVersion) : Type 0 where
  pub one_active : (code : String) → active_count code policies ≤ 1
  pub four_eyes : All FourEyes policies

-- The policies of an organization, as they are drafted and approved.
pub data Reachable : List PolicyVersion → Type 0 where
  no_policies : Reachable []
  drafting :
      (principal : ℕ) (code : String) (policies : List PolicyVersion)
      → Reachable policies
      → Reachable (create_deduction_policy principal code policies)
  approving :
      (principal k : ℕ) (policies : List PolicyVersion) {after : List PolicyVersion}
      → Reachable policies
      → approve_deduction_policy principal k policies ≡ ok after
      → Reachable after

-- Retiring a code leaves none of it active, and the other codes as they are.
active_count-retire :
    (code : String) (policies : List PolicyVersion)
    → active_count code (map (retire code) policies) ≡ 0
unfolding active_count
active_count-retire code [] = refl
active_count-retire code (p ∷ ps) = ground (arith, active_count-retire code ps)

active_count-retire_other :
    (code other : String) (policies : List PolicyVersion)
    → active_count other (map (retire code) policies) ≤ active_count other policies
unfolding active_count
active_count-retire_other code other [] = omega arith
active_count-retire_other code other (p ∷ ps) =
    ground (arith, active_count-retire_other code other ps)

get_elem?-retire :
    (code : String) (policies : List PolicyVersion) (k : ℕ) (p : PolicyVersion)
    → get_elem? policies k ≡ some p
    → get_elem? (map (retire code) policies) k ≡ some (retire code p)
get_elem?-retire code [] k p h = cc
get_elem?-retire code (q ∷ qs) zero p h =
    let same : q ≡ p = cc in ap (λ x. some (retire code x)) same
get_elem?-retire code (q ∷ qs) (suc k) p h = get_elem?-retire code qs k p h

retire-FourEyes :
    (code : String) (ps : List PolicyVersion)
    → All FourEyes ps
    → All FourEyes (map (retire code) ps)
retire-FourEyes code [] a = tt
retire-FourEyes code (p ∷ ps) a = (
  elim (Bool-cases (text_eq p.code code && is_active p.status)) [
    | inl e ↦ rw e (λ h. cc)
    | inr e ↦ rw e a.0
  ],
  retire-FourEyes code ps a.1,
)

approve-IsOrderly :
    (principal k : ℕ) (policies : List PolicyVersion)
    → IsOrderly policies
    → Ensures IsOrderly (approve_deduction_policy principal k policies)
unfolding approve_deduction_policy Ensures active_count
approve-IsOrderly principal k policies o =
    Ensures-or_throw IsOrderly (get_elem? policies k) PolicyFailure.not_found _ λ p found.
      Ensures-throw_if IsOrderly (p.created_by == principal) _ _ λ other.
        Ensures-throw_if IsOrderly (not (is_draft p.status)) _ _ λ fits.
          let there = get_elem?-retire p.code policies k p found in
          record {
            one_active = λ code.
                let replaced =
                  sum_by-set (counts code) (map (retire p.code) policies) k (retire p.code p)
                    (activated principal p) there in
                elim (Bool-cases (text_eq p.code code)) [
                  | inl e ↦
                      let same : p.code ≡ code = (text_eq_iff p.code code).0 e in
                      let none_left : active_count code (map (retire p.code) policies) ≡ 0 =
                        ap (λ c. active_count c (map (retire p.code) policies)) (sym same)
                        ∙ active_count-retire p.code policies in
                      let one : counts code (activated principal p) ≤ 1 = ground arith in
                      omega arith
                  | inr e ↦
                      let fewer = active_count-retire_other p.code code policies in
                      let before = o.one_active code in
                      let none_here : counts code (activated principal p) ≡ 0 = ground arith in
                      omega arith
                ];
            four_eyes =
                All-set FourEyes (map (retire p.code) policies) k (activated principal p)
                  (retire-FourEyes p.code policies o.four_eyes)
                  (λ _. (principal, refl, λ same. ground arith));
          }

create-IsOrderly :
    (principal : ℕ) (code : String) (policies : List PolicyVersion)
    → IsOrderly policies
    → IsOrderly (create_deduction_policy principal code policies)
unfolding create_deduction_policy active_count
create-IsOrderly principal code policies o = record {
  one_active = λ other.
      let appended = sum_by-append (counts other) policies (drafted principal code policies ∷ []) in
      let none_here : counts other (drafted principal code policies) ≡ 0 = ground arith in
      let before = o.one_active other in omega arith;
  four_eyes = All-append FourEyes policies _ o.four_eyes (λ h. cc, tt);
}

Reachable-IsOrderly : (policies : List PolicyVersion) → Reachable policies → IsOrderly policies
unfolding active_count
Reachable-IsOrderly _ no_policies = record { one_active = λ code. omega arith; four_eyes = tt }
Reachable-IsOrderly _ (drafting principal code policies reached) =
    create-IsOrderly principal code policies (Reachable-IsOrderly policies reached)
Reachable-IsOrderly _ (approving principal k policies reached e) =
    Ensures-ok IsOrderly _
      (approve-IsOrderly principal k policies (Reachable-IsOrderly policies reached)) e

-- However policies were drafted and approved, at most one version of each is active, and whoever
-- approved an active version did not create it.
pub Reachable-one_active :
    (policies : List PolicyVersion)
    → Reachable policies
    → ((code : String) → active_count code policies ≤ 1) × All FourEyes policies
Reachable-one_active policies reached =
    let o = Reachable-IsOrderly policies reached in (o.one_active, o.four_eyes)
