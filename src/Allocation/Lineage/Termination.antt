-- ===== src/Allocation/Lineage/Termination.antt =====
-- The walk of `resolveBatch` ends: each step down visits one batch more of the map, so one unit of
-- fuel more than there are batches is enough.
use clycites_platform.Prelude.{
  ℕ, zero, suc, ◌+◌, ◌<◌, ◌≤◌, ◌≡◌, ◌≢◌, refl, inl, inr, false, Bool-cases, Option-cases, some,
  List, [], ◌∷◌, String, Result, ok, err, ◌>>=◌, flat_map_result, if◌then◌else◌, arith, length,
  TextMap, lookup, contains, text_eq_iff,
}
use clycites_platform.Allocation.Apportion.{Failure}
use clycites_platform.Allocation.Lineage.{
  BatchLineageInput, WeightedDelivery, TransformationInput, normalize_weights, merge_weights,
  scale_weights, resolve_found, resolve_batch, or_empty, values, merge_loop,
}

-- The entries whose batch is not on the way down.
abbrev pub unvisited : TextMap BatchLineageInput → List String → ℕ
unvisited [] visiting = 0
unvisited ((k, b) ∷ m) visiting = (if contains k visiting then 0 else 1) + unvisited m visiting

unvisited-le :
    (m : TextMap BatchLineageInput) (id : String) (visiting : List String)
    → unvisited m (id ∷ visiting) ≤ unvisited m visiting
unvisited-le [] id visiting = omega arith
unvisited-le ((k, b) ∷ m) id visiting = ground (arith, unvisited-le m id visiting)

-- A batch that is found and not yet visited leaves fewer to visit.
unvisited-lt :
    (m : TextMap BatchLineageInput) (id : String) (visiting : List String) {b : BatchLineageInput}
    → contains id visiting ≡ false
    → lookup id m ≡ some b
    → unvisited m (id ∷ visiting) < unvisited m visiting
unvisited-lt [] id visiting h e = cc
unvisited-lt ((k, c) ∷ m) id visiting {b} h e = ground (
  arith,
  text_eq_iff k id,
  text_eq_iff id k,
  unvisited-le m id visiting,
  unvisited-lt m id visiting {b = b} h,
)

-- The walk did not run out of fuel.
abbrev Ran : {A : Type 0} → Result Failure A → Type 0
Ran r = r ≢ err Failure.out_of_fuel

normalize_weights-Ran : (ws : List WeightedDelivery) → Ran (normalize_weights ws)
unfolding normalize_weights
normalize_weights-Ran ws = ground arith

merge_weights-Ran : (ws : List WeightedDelivery) → Ran (merge_weights ws)
unfolding merge_weights
merge_weights-Ran ws = normalize_weights-Ran (values (merge_loop [] ws))

scaled_inputs :
    (String → Result Failure (List WeightedDelivery))
    → List TransformationInput
    → Result Failure (List WeightedDelivery)
scaled_inputs resolve_input =
    flat_map_result
      (λ input. resolve_input input.batch_id >>= λ ws. ok (scale_weights ws input.quantity_units))

scaled_inputs-Ran :
    (resolve_input : String → Result Failure (List WeightedDelivery))
    → ((id : String) → Ran (resolve_input id))
    → (inputs : List TransformationInput) → Ran (scaled_inputs resolve_input inputs)
unfolding scaled_inputs
scaled_inputs-Ran resolve_input h [] = cc
scaled_inputs-Ran resolve_input h (x ∷ xs) =
    ground (arith, h x.batch_id, scaled_inputs-Ran resolve_input h xs)

>>=-Ran :
    {A B : Type 0} (m : Result Failure A) (f : A → Result Failure B)
    → Ran m
    → ((a : A) → Ran (f a))
    → Ran (m >>= f)
>>=-Ran (ok a) f h k = k a
>>=-Ran (err e) f h k = λ same. h cc

resolve_found-Ran :
    (resolve_input : String → Result Failure (List WeightedDelivery)) (b : BatchLineageInput)
    → ((id : String) → Ran (resolve_input id))
    → Ran (resolve_found resolve_input b)
unfolding resolve_found scaled_inputs
resolve_found-Ran resolve_input b h =
    let inputs = or_empty b.transformation_inputs in
    ground (
      arith,
      >>=-Ran (scaled_inputs resolve_input inputs) (λ ws. merge_weights ws >>= normalize_weights)
          (scaled_inputs-Ran resolve_input h inputs)
          (λ ws.
            >>=-Ran (merge_weights ws) normalize_weights (merge_weights-Ran ws)
              normalize_weights-Ran),
    )

-- With more fuel than there are batches left to visit the walk never runs out: it returns the
-- weights or throws one of the engine's own errors.
resolve_batch_ends :
    (fuel : ℕ) (batches : TextMap BatchLineageInput) (batch_id : String) (visiting : List String)
    → unvisited batches visiting < fuel
    → Ran (resolve_batch fuel batches batch_id visiting)
unfolding resolve_batch
resolve_batch_ends zero batches batch_id visiting h = elim h [ ]
resolve_batch_ends (suc fuel) batches batch_id visiting h =
    elim (Bool-cases (contains batch_id visiting)) [
      | inl cycle ↦ rw cycle cc
      | inr fresh ↦ elim (Option-cases (lookup batch_id batches)) [
        | inl missing ↦ rw (fresh, missing) cc
        | inr (b, found) ↦
            rw (fresh, found)
              (resolve_found-Ran
                (λ input_id. resolve_batch fuel batches input_id (batch_id ∷ visiting)) b
                (λ id.
                  resolve_batch_ends fuel batches id (batch_id ∷ visiting)
                    (omega (arith, unvisited-lt batches batch_id visiting fresh found))))
      ]
    ]

unvisited-length : (m : TextMap BatchLineageInput) → unvisited m [] ≡ length m
unvisited-length [] = refl
unvisited-length (x ∷ m) = omega (arith, unvisited-length m)

-- From the top, one unit of fuel more than the map has batches is enough for every lineage,
-- cyclic ones included.
pub resolve_batch-terminates :
    (batches : TextMap BatchLineageInput) (batch_id : String)
    → resolve_batch (suc (length batches)) batches batch_id [] ≢ err Failure.out_of_fuel
resolve_batch-terminates batches batch_id =
    resolve_batch_ends (suc (length batches)) batches batch_id []
      (omega (arith, unvisited-length batches))
