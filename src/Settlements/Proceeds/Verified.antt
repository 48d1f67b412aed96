-- ===== src/Settlements/Proceeds/Verified.antt =====
-- What holds of the records of proceeds however they are handled (apps/api/src/settlements/
-- settlements.service.ts): it matches its order, it was verified by somebody else than who recorded
-- it, and only verified proceeds are in a run.
use mathlib.Core.Path.{subst}
use clycites_platform.Prelude.{
  sym, List, [], ◌∷◌, ◌&&◌, map, filter, contains, All, All-append, All-set, All-get_elem?,
  Bool-cases, inl, inr, ℕ, ◌≡◌, ◌≢◌, refl, Bool, true, false, not, ◌||◌, Option, some, String, ◌==◌,
  ltb, if◌then◌else◌, text_eq, text_eq_iff, arith, Ensures, Ensures-ok, Ensures-throw_if,
  Ensures-or_throw,
}
use clycites_platform.Settlements.Proceeds.Handled.{
  Follows, at_first, recording, verifying, reversing, settling,
}
use clycites_platform.Settlements.Proceeds.Created.{IsWhole, create_settlement_run-IsWhole}
use clycites_platform.Settlements.Proceeds.{
  all_ready, mark_used, OrderRow, ProceedsStatus, SaleProceeds, ProceedsInput, ProceedsFailure,
  record_sale_proceeds, verify_sale_proceeds, reverse_sale_proceeds, is_recorded, is_verified,
  is_ready, accepts_something,
}

abbrev pub FourEyes : SaleProceeds → Type 0
FourEyes r = (verifier : ℕ) × (r.verified_by ≡ some verifier) × (verifier ≢ r.recorded_by)

abbrev pub IsSound : SaleProceeds → Type 0
IsSound r =
    (r.currency ≡ r.order.currency)
    × (r.expected_amount_minor ≡ r.order.total_amount_minor)
    × (is_verified r.status ≡ true → FourEyes r)
    × (r.is_used ≡ true → is_verified r.status ≡ true)

record_sale_proceeds-IsSound :
    (principal : ℕ) (id : String) (input : ProceedsInput) (found : Option OrderRow)
    → Ensures IsSound (record_sale_proceeds principal id input found)
unfolding record_sale_proceeds Ensures
record_sale_proceeds-IsSound principal id input found =
    Ensures-or_throw IsSound found ProceedsFailure.not_eligible _ λ order _.
      Ensures-throw_if IsSound (not order.is_completed || not (accepts_something order.acceptance))
        _ _
        λ _.
          Ensures-throw_if IsSound
            (not (text_eq input.currency order.currency)
              || not (input.expected_amount_minor == order.total_amount_minor))
            _ _
            λ h. (
              ground (arith, text_eq_iff input.currency order.currency),
              ground arith,
              λ e. cc,
              λ e. cc,
            )

verified_status :
    (b : Bool)
    → is_verified (if b then ProceedsStatus.partially_received else ProceedsStatus.verified) ≡ true
verified_status true = refl
verified_status false = refl

verify_sale_proceeds-IsSound :
    (principal version : ℕ) (r : SaleProceeds)
    → IsSound r
    → Ensures IsSound (verify_sale_proceeds principal version r)
unfolding verify_sale_proceeds Ensures
verify_sale_proceeds-IsSound principal version r (currency, total, _, _) =
    Ensures-throw_if IsSound (not (r.version == version)) _ _ λ _.
      Ensures-throw_if IsSound (r.recorded_by == principal) _ _ λ other.
        Ensures-throw_if IsSound (not (is_recorded r.status)) _ _ λ _. (
          currency,
          total,
          λ _. (principal, refl, λ same. ground arith),
          λ _. verified_status (ltb r.recorded_amount_minor r.expected_amount_minor),
        )

reverse_sale_proceeds-IsSound :
    (version : ℕ) (r : SaleProceeds) → IsSound r → Ensures IsSound (reverse_sale_proceeds version r)
unfolding reverse_sale_proceeds Ensures
reverse_sale_proceeds-IsSound version r (currency, total, _, _) =
    Ensures-throw_if IsSound (not (r.version == version)) _ _ λ _.
      Ensures-throw_if IsSound (not (is_recorded r.status || is_verified r.status)) _ _
        λ _. Ensures-throw_if IsSound r.is_used _ _ λ unused. (currency, total, λ e. cc, λ e. cc)

marked-IsSound :
    (ids : List String) (store : List SaleProceeds)
    → all_ready (filter (λ (r : SaleProceeds). contains r.id ids) store) ≡ true
    → All IsSound store
    → All IsSound (map (mark_used ids) store)
unfolding all_ready
marked-IsSound ids [] ready sound = tt
marked-IsSound ids (x ∷ xs) ready ((currency, total, eyes, used), sound) =
    elim (Bool-cases (contains x.id ids)) [
      | inl e ↦
          let fits : (is_ready x && all_ready (filter (λ (r : SaleProceeds). contains r.id ids) xs))
              ≡ true =
            rw e at ready in
          ((currency, total, eyes, λ _. ground arith), marked-IsSound ids xs (ground arith) sound)
      | inr e ↦
          let rest : all_ready (filter (λ (r : SaleProceeds). contains r.id ids) xs) ≡ true =
            rw e at ready in
          ((currency, total, eyes, λ u. used (ground arith)), marked-IsSound ids xs rest sound)
    ]

-- However the proceeds of an organization are recorded, verified, reversed and put into runs, each
-- record matches the currency and the total of its order, whoever verified it did not record it,
-- and it is in a run only if it is verified.
pub Follows-IsSound : (store : List SaleProceeds) → Follows [] store → All IsSound store
Follows-IsSound _ at_first = tt
Follows-IsSound _ (recording p id input found store {r} f e) =
    All-append IsSound store (r ∷ []) (Follows-IsSound store f)
      (Ensures-ok IsSound _ (record_sale_proceeds-IsSound p id input found) e, tt)
Follows-IsSound _ (verifying p v k store {r} {s} f there e) =
    let sound = Follows-IsSound store f in
    All-set IsSound store k s sound (
      Ensures-ok IsSound _
        (verify_sale_proceeds-IsSound p v r (All-get_elem? IsSound store k r sound there)) e)
Follows-IsSound _ (reversing v k store {r} {s} f there e) =
    let sound = Follows-IsSound store f in
    All-set IsSound store k s sound (
      Ensures-ok IsSound _
        (reverse_sale_proceeds-IsSound v r (All-get_elem? IsSound store k r sound there)) e)
Follows-IsSound _ (settling rates input store f e) =
    let (_, marked, ready) =
      Ensures-ok (IsWhole rates input store) _ (create_settlement_run-IsWhole rates input store)
        e in
    subst (All IsSound) (sym marked)
      (marked-IsSound input.sale_proceeds_record_ids store ready (Follows-IsSound store f))
