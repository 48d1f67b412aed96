-- ===== src/Settlements/Policies/Tests.antt =====
-- A policy of which a second version takes over.
use clycites_platform.Prelude.{◌≤◌, ◌≡◌, refl, List, [], ◌∷◌, String, Result, ok, err, All, map}
use clycites_platform.Settlements.Policies.{
  PolicyVersion, PolicyStatus, PolicyFailure, create_deduction_policy, approve_deduction_policy,
}
use clycites_platform.Settlements.Policies.Versions.{
  Reachable, active_count, FourEyes, Reachable-one_active,
}

abbrev or_none : Result PolicyFailure (List PolicyVersion) → List PolicyVersion
or_none (ok policies) = policies
or_none (err e) = []

abbrev first_version : List PolicyVersion
unfolding create_deduction_policy approve_deduction_policy
first_version = or_none (approve_deduction_policy 2 0 (create_deduction_policy 1 "LEVY" []))

abbrev second_version : List PolicyVersion
unfolding first_version
second_version =
    or_none (approve_deduction_policy 1 1 (create_deduction_policy 3 "LEVY" first_version))

second_version_statuses :
    map (λ (p : PolicyVersion). p.status) second_version
    ≡ PolicyStatus.superseded ∷ PolicyStatus.active ∷ []
unfolding second_version
second_version_statuses = refl

Reachable-one_active_example :
    ((code : String) → active_count code second_version ≤ 1) × All FourEyes second_version
unfolding second_version first_version create_deduction_policy approve_deduction_policy
Reachable-one_active_example = Reachable-one_active second_version (
    Reachable.approving 1 1 (create_deduction_policy 3 "LEVY" first_version)
      (Reachable.drafting 3 "LEVY" first_version (
        Reachable.approving 2 0 (create_deduction_policy 1 "LEVY" [])
          (Reachable.drafting 1 "LEVY" [] Reachable.no_policies) refl))
      refl)
