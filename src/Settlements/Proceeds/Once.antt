-- ===== src/Settlements/Proceeds/Once.antt =====
-- Proceeds that are in a run stay in it (apps/api/src/settlements/settlements.service.ts).
use mathlib.Core.Path.{subst}
use clycites_platform.Prelude.{
  ℕ, zero, suc, ◌≡◌, refl, sym, ap, ◌∙◌, true, false, not, ◌||◌, ◌==◌, some, List, [], ◌∷◌, ◌++◌,
  map, filter, contains, String, ok, err, arith, get_elem?, set, Ensures, Ensures-ok,
  Ensures-throw_if,
}
use clycites_platform.Settlements.Proceeds.{
  SaleProceeds, ProceedsFailure, RateRow, RunInput, CreatedRun, create_settlement_run, all_ready,
  mark_used, is_recorded, is_verified, verify_sale_proceeds, reverse_sale_proceeds,
}
use clycites_platform.Settlements.Proceeds.Created.{
  IsWhole, create_settlement_run-IsWhole, rejected_lem,
}
use clycites_platform.Settlements.Proceeds.Handled.{
  Follows, at_first, recording, verifying, reversing, settling,
}

all_ready-used :
    (ids : List String) (store : List SaleProceeds) (i : ℕ) (r : SaleProceeds)
    → get_elem? store i ≡ some r
    → contains r.id ids ≡ true
    → r.is_used ≡ true
    → all_ready (filter (λ (x : SaleProceeds). contains x.id ids) store) ≡ false
unfolding all_ready
all_ready-used ids [] i r h c u = cc
all_ready-used ids (x ∷ xs) zero r h c u =
    let same : x ≡ r = cc in
    let listed : contains x.id ids ≡ true = ap (λ (y : SaleProceeds). contains y.id ids) same ∙ c in
    let used : x.is_used ≡ true = ap (λ (y : SaleProceeds). y.is_used) same ∙ u in ground arith
all_ready-used ids (x ∷ xs) (suc i) r h c u = ground (arith, all_ready-used ids xs i r h c u)

get_elem?-mark :
    (ids : List String) (store : List SaleProceeds) (i : ℕ) (r : SaleProceeds)
    → get_elem? store i ≡ some r
    → get_elem? (map (mark_used ids) store) i ≡ some (mark_used ids r)
get_elem?-mark ids [] i r h = cc
get_elem?-mark ids (x ∷ xs) zero r h =
    let same : x ≡ r = cc in ap (λ y. some (mark_used ids y)) same
get_elem?-mark ids (x ∷ xs) (suc i) r h = get_elem?-mark ids xs i r h

-- The record at `i` has this id and is in a run.
pub record IsUsedAt (i : ℕ) (id : String) (store : List SaleProceeds) : Type 0 where
  pub used_record : SaleProceeds
  pub found : get_elem? store i ≡ some used_record
  pub same_id : used_record.id ≡ id
  pub used : used_record.is_used ≡ true

-- What verification and reversal leave as it is.
abbrev KeepsUse : SaleProceeds → SaleProceeds → Type 0
KeepsUse r s = (s.id ≡ r.id) × (s.is_used ≡ r.is_used)

get_elem?-append :
    (store : List SaleProceeds) (more : List SaleProceeds) (i : ℕ) (r : SaleProceeds)
    → get_elem? store i ≡ some r
    → get_elem? (store ++ more) i ≡ some r
get_elem?-append [] more i r h = cc
get_elem?-append (x ∷ xs) more zero r h = h
get_elem?-append (x ∷ xs) more (suc i) r h = get_elem?-append xs more i r h

set-IsUsedAt :
    (i : ℕ) (id : String) (store : List SaleProceeds) (k : ℕ) (r s : SaleProceeds)
    → get_elem? store k ≡ some r
    → KeepsUse r s
    → IsUsedAt i id store
    → IsUsedAt i id (set store k s)
set-IsUsedAt i id [] k r s there kept u = u
set-IsUsedAt zero id (x ∷ xs) zero r s there (same_id, same_use) u =
    let at_k : x ≡ r = cc in
    let here : x ≡ u.used_record = cc in
    record {
      used_record = s;
      found = refl;
      same_id = same_id ∙ ap (λ (y : SaleProceeds). y.id) (sym at_k ∙ here) ∙ u.same_id;
      used = same_use ∙ ap (λ (y : SaleProceeds). y.is_used) (sym at_k ∙ here) ∙ u.used;
    }
set-IsUsedAt (suc i) id (x ∷ xs) zero r s there kept u = record {
  used_record = u.used_record;
  found = u.found;
  same_id = u.same_id;
  used = u.used;
}
set-IsUsedAt zero id (x ∷ xs) (suc k) r s there kept u = record {
  used_record = u.used_record;
  found = u.found;
  same_id = u.same_id;
  used = u.used;
}
set-IsUsedAt (suc i) id (x ∷ xs) (suc k) r s there kept u =
    let rest = set-IsUsedAt i id xs k r s there kept (record {
      used_record = u.used_record;
      found = u.found;
      same_id = u.same_id;
      used = u.used;
    }) in
    record {
      used_record = rest.used_record;
      found = rest.found;
      same_id = rest.same_id;
      used = rest.used;
    }

verify_sale_proceeds-KeepsUse :
    (principal version : ℕ) (r : SaleProceeds)
    → Ensures (KeepsUse r) (verify_sale_proceeds principal version r)
unfolding verify_sale_proceeds Ensures
verify_sale_proceeds-KeepsUse principal version r =
    Ensures-throw_if (KeepsUse r) (not (r.version == version)) _ _ λ _.
      Ensures-throw_if (KeepsUse r) (r.recorded_by == principal) _ _
        λ _. Ensures-throw_if (KeepsUse r) (not (is_recorded r.status)) _ _ λ _. (refl, refl)

reverse_sale_proceeds-KeepsUse :
    (version : ℕ) (r : SaleProceeds) → Ensures (KeepsUse r) (reverse_sale_proceeds version r)
unfolding reverse_sale_proceeds Ensures
reverse_sale_proceeds-KeepsUse version r =
    Ensures-throw_if (KeepsUse r) (not (r.version == version)) _ _ λ _.
      Ensures-throw_if (KeepsUse r) (not (is_recorded r.status || is_verified r.status)) _ _
        λ _. Ensures-throw_if (KeepsUse r) r.is_used _ _ λ _. (refl, refl)

mark-IsUsedAt :
    (i : ℕ) (id : String) (ids : List String) (store : List SaleProceeds)
    → IsUsedAt i id store
    → IsUsedAt i id (map (mark_used ids) store)
mark-IsUsedAt i id ids store u =
    let is_used_still : (mark_used ids u.used_record).is_used ≡ true =
      let h = u.used in ground arith in
    record {
      used_record = mark_used ids u.used_record;
      found = get_elem?-mark ids store i u.used_record u.found;
      same_id = u.same_id;
      used = is_used_still;
    }

Follows-IsUsedAt :
    (i : ℕ) (id : String) (first later : List SaleProceeds)
    → IsUsedAt i id first
    → Follows first later
    → IsUsedAt i id later
Follows-IsUsedAt i id first _ u at_first = u
Follows-IsUsedAt i id first _ u (recording p k input found store f e) =
    let before = Follows-IsUsedAt i id first store u f in
    record {
      used_record = before.used_record;
      found = get_elem?-append store _ i before.used_record before.found;
      same_id = before.same_id;
      used = before.used;
    }
Follows-IsUsedAt i id first _ u (verifying p v k store {r} {s} f there e) =
    set-IsUsedAt i id store k r s there
      (Ensures-ok (KeepsUse r) _ (verify_sale_proceeds-KeepsUse p v r) e)
      (Follows-IsUsedAt i id first store u f)
Follows-IsUsedAt i id first _ u (reversing v k store {r} {s} f there e) =
    set-IsUsedAt i id store k r s there
      (Ensures-ok (KeepsUse r) _ (reverse_sale_proceeds-KeepsUse v r) e)
      (Follows-IsUsedAt i id first store u f)
Follows-IsUsedAt i id first _ u (settling rates input store f e) =
    let (_, marked, _) =
      Ensures-ok (IsWhole rates input store) _ (create_settlement_run-IsWhole rates input store)
        e in
    subst (IsUsedAt i id) (sym marked) (
      mark-IsUsedAt i id input.sale_proceeds_record_ids store
        (Follows-IsUsedAt i id first store u f))

-- Proceeds are settled once: when a run was created with a record of proceeds, then however the
-- proceeds are recorded, verified, reversed and put into runs afterwards, every attempt to create a
-- run with that record is refused.
pub create_settlement_run_once :
    (rates : List RateRow) (input : RunInput) (store : List SaleProceeds) {c : CreatedRun}
    (later : List SaleProceeds) (later_rates : List RateRow) (again : RunInput) (i : ℕ)
    {r : SaleProceeds}
    → create_settlement_run rates input store ≡ ok c
    → get_elem? store i ≡ some r
    → contains r.id input.sale_proceeds_record_ids ≡ true
    → Follows c.proceeds later
    → contains r.id again.sale_proceeds_record_ids ≡ true
    → create_settlement_run later_rates again later ≡ err ProceedsFailure.not_verified
create_settlement_run_once rates input store {c} later later_rates again i {r} created found listed
      follows relisted =
    let ids = input.sale_proceeds_record_ids in
    let (_, marked, _) =
      Ensures-ok (IsWhole rates input store) _ (create_settlement_run-IsWhole rates input store)
        created in
    let kept : get_elem? c.proceeds i ≡ some (mark_used ids r) =
      ap (λ ps. get_elem? ps i) marked ∙ get_elem?-mark ids store i r found in
    let marked_used : (mark_used ids r).is_used ≡ true = ground arith in
    let before : IsUsedAt i r.id c.proceeds = record {
      used_record = mark_used ids r;
      found = kept;
      same_id = refl;
      used = marked_used;
    } in
    let now = Follows-IsUsedAt i r.id c.proceeds later before follows in
    rejected_lem later_rates again later (
      all_ready-used again.sale_proceeds_record_ids later i now.used_record now.found
        (ap (λ id. contains id again.sale_proceeds_record_ids) now.same_id ∙ relisted) now.used)
