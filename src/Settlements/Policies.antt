-- ===== src/Settlements/Policies.antt =====
-- Deduction policies as a series of versions: `createDeductionPolicy` and `approveDeductionPolicy` of
-- apps/api/src/settlements/settlements.service.ts.
pub mod Versions
mod Tests
use clycites_platform.Prelude.{
  ℕ, zero, suc, ◌+◌, Bool, true, false, not, ◌&&◌, Option, none, some, List, [], ◌∷◌, ◌++◌, map,
  String, Result, ok, ◌>>=◌, ◌>>◌, throw_if, or_throw, ltb, ◌==◌, max, if◌then◌else◌, get_elem?,
  set, text_eq,
}

pub data PolicyStatus : Type 0 where
  draft active inactive superseded : PolicyStatus

pub record PolicyVersion : Type 0 where
  pub code : String
  pub policy_version : ℕ
  pub status : PolicyStatus
  pub created_by : ℕ
  pub approved_by : Option ℕ

pub data PolicyFailure : Type 0 where
  not_found self_approval transition_invalid : PolicyFailure

-- The newest version of a code, 0 if there is none.
abbrev pub latest_version : String → List PolicyVersion → ℕ
latest_version code [] = 0
latest_version code (p ∷ ps) =
    let rest = latest_version code ps in
    if text_eq p.code code then max p.policy_version rest else rest

abbrev pub drafted : ℕ → String → List PolicyVersion → PolicyVersion
drafted principal code policies = record {
  code = code;
  policy_version = latest_version code policies + 1;
  status = PolicyStatus.draft;
  created_by = principal;
  approved_by = none;
}

unfoldable pub create_deduction_policy : ℕ → String → List PolicyVersion → List PolicyVersion
create_deduction_policy principal code policies = policies ++ drafted principal code policies ∷ []

abbrev pub is_draft : PolicyStatus → Bool
is_draft PolicyStatus.draft = true
is_draft _ = false

abbrev pub is_active : PolicyStatus → Bool
is_active PolicyStatus.active = true
is_active _ = false

-- `updateMany({ where: { code, status: 'ACTIVE' }, data: { status: 'SUPERSEDED' } })`
abbrev pub retire : String → PolicyVersion → PolicyVersion
retire code p =
    if text_eq p.code code && is_active p.status
    then record p { status = PolicyStatus.superseded }
    else p

abbrev pub activated : ℕ → PolicyVersion → PolicyVersion
activated principal p = record p { status = PolicyStatus.active; approved_by = some principal }

unfoldable pub approve_deduction_policy :
    ℕ → ℕ → List PolicyVersion → Result PolicyFailure (List PolicyVersion)
approve_deduction_policy principal k policies = do
  p ← or_throw (get_elem? policies k) PolicyFailure.not_found
  throw_if (p.created_by == principal) PolicyFailure.self_approval
  throw_if (not (is_draft p.status)) PolicyFailure.transition_invalid
  ok (set (map (retire p.code) policies) k (activated principal p))
