-- ===== src/Map.antt =====
-- `std::map<std::string, V>`: the entries in the order of their keys, which `begin()` to `end()`
-- walk through.
pub mod Laws
use google_cloud_final.Base.{Bool, true, false, List, [], ◌∷◌, Option, none, some, if◌then◌else◌}
use google_cloud_final.Text.{Bytes, equal, less}

abbrev pub Map {ℓ} : Type ℓ → Type ℓ
Map V = List (Bytes × V)

module _ {ℓ} {V : Type ℓ} where
  -- `m.find(k)`
  unfoldable pub lookup : Bytes → Map V → Option V
  lookup k [] = none
  lookup k ((j, v) ∷ m) = if equal j k then some v else lookup k m

  -- `m.count(k)`
  unfoldable pub has : Bytes → Map V → Bool
  unfolding lookup
  has k m = elim (lookup k m) [ none ↦ false | some v ↦ true ]

  -- `m[k] = v`
  unfoldable pub insert : Bytes → V → Map V → Map V
  insert k v [] = (k, v) ∷ []
  insert k v ((j, w) ∷ m) =
      if equal j k
      then (k, v) ∷ m
      else if less k j
      then (k, v) ∷ (j, w) ∷ m
      else (j, w) ∷ insert k v m

  -- `m.erase(k)`
  unfoldable pub erase : Bytes → Map V → Map V
  erase k [] = []
  erase k ((j, v) ∷ m) = let rest = erase k m in if equal j k then rest else (j, v) ∷ rest
