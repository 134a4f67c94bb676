-- ===== src/Dict.antt =====
-- Go's maps with string keys, as association lists. A `range` over a map visits the entries in the
-- order of the list; Go fixes no order, so nothing is assumed of it.
pub mod Keys
use collective.Prelude.{
  ℕ, ◌≡◌, refl, Bool, true, false, Option, none, some, List, [], ◌∷◌, ◌++◌, arith, if◌then◌else◌,
}
use collective.Text.{Text, same, same_iff}

abbrev pub Dict {ℓ} : Type ℓ → Type ℓ
Dict V = List (Text × V)

module _ {ℓ} {V : Type ℓ} where
  -- `v, exists := m[k]`
  unfoldable pub lookup : Text → Dict V → Option V
  lookup key [] = none
  lookup key (entry ∷ rest) =
      let found = lookup key rest in if same entry.0 key then some entry.1 else found

  -- `m[k] = v`
  unfoldable pub insert : Text → V → Dict V → Dict V
  insert key v [] = (key, v) ∷ []
  insert key v (entry ∷ rest) =
      let others = insert key v rest in if same entry.0 key then (key, v) ∷ rest else entry ∷ others

  -- `delete(m, k)`; keys are distinct, and a key that stood twice would go twice
  unfoldable pub erase : Text → Dict V → Dict V
  erase key [] = []
  erase key (entry ∷ rest) =
      let others = erase key rest in if same entry.0 key then others else entry ∷ others

  -- `_, exists := m[k]`
  abbrev pub is_some : Option V → Bool
  is_some none = false
  is_some (some v) = true

  pub lookup-erase :
      (gone key : Text) (m : Dict V)
      → lookup key (erase gone m) ≡ (if same gone key then none else lookup key m)
  unfolding lookup erase
  lookup-erase gone key [] = ground arith
  lookup-erase gone key ((i, w) ∷ rest) =
      ground (arith, lookup-erase gone key rest, same_iff i gone, same_iff i key, same_iff gone key)

  pub lookup-insert :
      (new key : Text) (v : V) (m : Dict V)
      → lookup key (insert new v m) ≡ (if same new key then some v else lookup key m)
  unfolding lookup insert
  lookup-insert new key v [] = ground arith
  lookup-insert new key v ((i, w) ∷ rest) =
      ground (arith, lookup-insert new key v rest, same_iff i new, same_iff i key, same_iff new key)

  pub lookup-insert_self : (key : Text) (v : V) (m : Dict V) → lookup key (insert key v m) ≡ some v
  lookup-insert_self key v m = ground (arith, lookup-insert key key v m, same_iff key key)
