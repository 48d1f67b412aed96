-- ===== src/Allocation/Proceeds/Quantities.antt =====
-- The map of the farmers' quantities: what each farmer has there is what the shares of its
-- deliveries add up to.
use clycites_platform.Prelude.{
  ℕ, ◌+◌, ◌≡◌, refl, Bool, false, none, List, [], ◌∷◌, String, if◌then◌else◌, arith, sum_by, filter,
  TextMap, lookup, insert, text_eq, text_eq_iff, text_eq_refl, ◌∙◌,
}
use clycites_platform.Allocation.Proceeds.{QuantityShare, add_quantities, or_zero}

abbrev pub entry_value : String × ℕ → ℕ
entry_value (k, v) = v

abbrev pub share_amount : QuantityShare → ℕ
share_amount s = s.amount

abbrev pub is_own : String → QuantityShare → Bool
is_own farmer s = text_eq s.item.farmer_id farmer

pub lookup-insert :
    (k j : String) (v : ℕ) (m : TextMap ℕ)
    → or_zero (lookup j (insert k v m)) ≡ (if text_eq k j then v else or_zero (lookup j m))
lookup-insert k j v [] = ground arith
lookup-insert k j v ((i, w) ∷ m) =
    ground (arith, text_eq_iff k j, text_eq_iff i k, text_eq_iff i j, lookup-insert k j v m)

pub sum-insert :
    (k : String) (a : ℕ) (m : TextMap ℕ)
    → sum_by entry_value (insert k (or_zero (lookup k m) + a) m) ≡ sum_by entry_value m + a
sum-insert k a [] = omega arith
sum-insert k a ((i, w) ∷ m) = ground (arith, sum-insert k a m)

-- The quantities in the map add up to what the shares add up to.
pub sum-add_quantities :
    (m : TextMap ℕ) (ss : List QuantityShare)
    → sum_by entry_value (add_quantities m ss) ≡ sum_by entry_value m + sum_by share_amount ss
unfolding add_quantities
sum-add_quantities m [] = omega arith
sum-add_quantities m (s ∷ ss) =
    let k = s.item.farmer_id in
    omega (
      arith,
      sum-add_quantities (insert k (or_zero (lookup k m) + s.amount) m) ss,
      sum-insert k s.amount m,
    )

-- A farmer's quantity is the sum of the farmer's own shares.
pub lookup-add_quantities :
    (farmer : String) (m : TextMap ℕ) (ss : List QuantityShare)
    → or_zero (lookup farmer (add_quantities m ss))
      ≡ or_zero (lookup farmer m) + sum_by share_amount (filter (is_own farmer) ss)
unfolding add_quantities
lookup-add_quantities farmer m [] = omega arith
lookup-add_quantities farmer m (s ∷ ss) =
    let k = s.item.farmer_id in
    let v = or_zero (lookup k m) + s.amount in
    ground (
      arith,
      lookup-add_quantities farmer (insert k v m) ss,
      lookup-insert k farmer v m,
      text_eq_iff k farmer,
    )

-- No key stands twice in a map.
abbrev pub HasDistinctKeys : TextMap ℕ → Type 0
HasDistinctKeys [] = Unit
HasDistinctKeys ((k, v) ∷ m) = (lookup k m ≡ none) × HasDistinctKeys m

lookup-insert-none :
    (k j : String) (v : ℕ) (m : TextMap ℕ)
    → text_eq k j ≡ false
    → lookup j m ≡ none
    → lookup j (insert k v m) ≡ none
lookup-insert-none k j v [] h e = ground arith
lookup-insert-none k j v ((i, w) ∷ m) h e = ground (arith, lookup-insert-none k j v m h)

insert-HasDistinctKeys :
    (k : String) (v : ℕ) (m : TextMap ℕ) → HasDistinctKeys m → HasDistinctKeys (insert k v m)
insert-HasDistinctKeys k v [] h = (refl, tt)
insert-HasDistinctKeys k v ((i, w) ∷ m) h = ground (
  arith,
  insert-HasDistinctKeys k v m h.1,
  lookup-insert-none k i v m,
  text_eq_iff k i,
  text_eq_iff i k,
)

add_quantities-HasDistinctKeys :
    (m : TextMap ℕ) (ss : List QuantityShare)
    → HasDistinctKeys m
    → HasDistinctKeys (add_quantities m ss)
unfolding add_quantities
add_quantities-HasDistinctKeys m [] h = h
add_quantities-HasDistinctKeys m (s ∷ ss) h =
    let k = s.item.farmer_id in
    let v = or_zero (lookup k m) + s.amount in
    add_quantities-HasDistinctKeys (insert k v m) ss (insert-HasDistinctKeys k v m h)

abbrev pub looked_up : TextMap ℕ → String → ℕ
looked_up m k = or_zero (lookup k m)

-- An entry in front changes nothing for keys that are not its own.
sum-lookup_cons :
    (k : String) (v : ℕ) (m n : TextMap ℕ)
    → lookup k n ≡ none
    → sum_by (λ (e : String × ℕ). looked_up ((k, v) ∷ m) e.0) n
      ≡ sum_by (λ (e : String × ℕ). looked_up m e.0) n
sum-lookup_cons k v m [] h = refl
sum-lookup_cons k v m ((i, w) ∷ n) h =
    ground (arith, sum-lookup_cons k v m n, text_eq_iff k i, text_eq_iff i k)

-- Where no key stands twice, looking every key up finds every value once.
pub sum-lookup :
    (m : TextMap ℕ)
    → HasDistinctKeys m
    → sum_by (λ (e : String × ℕ). looked_up m e.0) m ≡ sum_by entry_value m
sum-lookup [] h = refl
sum-lookup ((k, v) ∷ m) h =
    ground (arith, sum-lookup m h.1, sum-lookup_cons k v m m h.0, text_eq_refl k)

pub sum-lookup-add_quantities :
    (ss : List QuantityShare)
    → let m = add_quantities [] ss in
      sum_by (λ (e : String × ℕ). looked_up m e.0) m ≡ sum_by share_amount ss
sum-lookup-add_quantities ss =
    sum-lookup (add_quantities [] ss) (add_quantities-HasDistinctKeys [] ss tt)
    ∙ sum-add_quantities [] ss
    ∙ (omega arith)
