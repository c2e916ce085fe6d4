-- ===== src/Map/Laws.antt =====
-- The order of the keys, and what a lookup finds after a write.
use google_cloud_final.Base.{◌≡◌, refl, true, [], ◌∷◌, none, some, arith, if◌then◌else◌}
use google_cloud_final.Text.{Bytes, equal, less, equal_iff}
use google_cloud_final.Text.Order.{less_irrefl, less_trans, less_total}
use google_cloud_final.Map.{Map, lookup, insert, erase}

-- Every key is greater than `k`.
abbrev pub Above {ℓ} : {V : Type ℓ} → Bytes → Map V → Type 0
Above k [] = Unit
Above k ((j, v) ∷ m) = (less k j ≡ true) × Above k m

-- The keys rise along the list, as `std::map` keeps them.
abbrev pub IsSorted {ℓ} : {V : Type ℓ} → Map V → Type 0
IsSorted [] = Unit
IsSorted ((k, v) ∷ m) = Above k m × IsSorted m

module _ {ℓ} {V : Type ℓ} where
  pub lookup-insert :
      (k j : Bytes) (v : V) (m : Map V)
      → lookup j (insert k v m) ≡ (if equal k j then some v else lookup j m)
  unfolding lookup insert
  lookup-insert k j v [] = refl
  lookup-insert k j v ((i, w) ∷ m) =
      ground (arith, equal_iff k j, equal_iff i k, equal_iff i j, lookup-insert k j v m)

  pub lookup-erase :
      (k j : Bytes) (m : Map V) → lookup j (erase k m) ≡ (if equal k j then none else lookup j m)
  unfolding lookup erase
  lookup-erase k j [] = ground arith
  lookup-erase k j ((i, w) ∷ m) =
      ground (arith, equal_iff k j, equal_iff i k, equal_iff i j, lookup-erase k j m)

  Above-trans : (a b : Bytes) (m : Map V) → less a b ≡ true → Above b m → Above a m
  Above-trans a b [] h k = tt
  Above-trans a b ((j, v) ∷ m) h k = (less_trans a b j h k.0, Above-trans a b m h k.1)

  insert-Above :
      (a k : Bytes) (v : V) (m : Map V) → less a k ≡ true → Above a m → Above a (insert k v m)
  unfolding insert
  insert-Above a k v [] h b = (h, tt)
  insert-Above a k v ((i, w) ∷ m) h b = ground (arith, insert-Above a k v m h b.1)

  erase-Above : (a k : Bytes) (m : Map V) → Above a m → Above a (erase k m)
  unfolding erase
  erase-Above a k [] b = tt
  erase-Above a k ((i, w) ∷ m) b = ground (arith, erase-Above a k m b.1)

  pub insert-IsSorted : (k : Bytes) (v : V) (m : Map V) → IsSorted m → IsSorted (insert k v m)
  unfolding insert
  insert-IsSorted k v [] h = (tt, tt)
  insert-IsSorted k v ((i, w) ∷ m) h = ground (
    arith,
    equal_iff i k,
    less_total i k,
    Above-trans k i m,
    insert-Above i k v m,
    insert-IsSorted k v m h.1,
  )

  pub erase-IsSorted : (k : Bytes) (m : Map V) → IsSorted m → IsSorted (erase k m)
  unfolding erase
  erase-IsSorted k [] h = tt
  erase-IsSorted k ((i, w) ∷ m) h = ground (arith, erase-Above i k m h.0, erase-IsSorted k m h.1)

  pub lookup-Above : (k : Bytes) (m : Map V) → Above k m → lookup k m ≡ none
  unfolding lookup
  lookup-Above k [] b = refl
  lookup-Above k ((j, v) ∷ m) b = ground (arith, equal_iff j k, less_irrefl k, lookup-Above k m b.1)
