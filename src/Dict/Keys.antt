-- ===== src/Dict/Keys.antt =====
-- The keys of a map are distinct, and every operation keeps them so; predicates of all entries.
use collective.Prelude.{◌≡◌, refl, Bool, false, none, some, [], ◌∷◌, arith, keep}
use collective.Text.{Text, same, same_iff}
use collective.Dict.{Dict, lookup, insert, erase}

module _ {ℓ} {V : Type ℓ} where
  -- The key does not stand in the map.
  abbrev pub Lacks : Text → Dict V → Type 0
  Lacks k [] = Unit
  Lacks k ((j, v) ∷ m) = (same j k ≡ false) × Lacks k m

  abbrev pub Distinct : Dict V → Type 0
  Distinct [] = Unit
  Distinct ((j, v) ∷ m) = Lacks j m × Distinct m

  -- A predicate of key and value at every entry.
  abbrev pub Each {κ} : (Text → V → Type κ) → Dict V → Type κ
  Each P [] = Unit
  Each P ((j, v) ∷ m) = P j v × Each P m

  pub lookup-Lacks : (k : Text) (m : Dict V) → Lacks k m → lookup k m ≡ none
  unfolding lookup
  lookup-Lacks k [] h = refl
  lookup-Lacks k ((j, v) ∷ m) h = ground (arith, lookup-Lacks k m h.1)

  insert-Lacks :
      (i k : Text) (v : V) (m : Dict V) → same k i ≡ false → Lacks i m → Lacks i (insert k v m)
  unfolding insert
  insert-Lacks i k v [] n h = ground arith
  insert-Lacks i k v ((j, w) ∷ m) n h = ground (arith, insert-Lacks i k v m)

  pub insert-Distinct : (k : Text) (v : V) (m : Dict V) → Distinct m → Distinct (insert k v m)
  unfolding insert
  insert-Distinct k v [] h = ground arith
  insert-Distinct k v ((j, w) ∷ m) h =
      ground (arith, insert-Distinct k v m h.1, insert-Lacks j k v m, same_iff j k, same_iff k j)

  erase-Lacks : (i k : Text) (m : Dict V) → Lacks i m → Lacks i (erase k m)
  unfolding erase
  erase-Lacks i k [] h = tt
  erase-Lacks i k ((j, w) ∷ m) h = ground (arith, erase-Lacks i k m)

  pub erase-Distinct : (k : Text) (m : Dict V) → Distinct m → Distinct (erase k m)
  unfolding erase
  erase-Distinct k [] h = tt
  erase-Distinct k ((j, w) ∷ m) h = ground (arith, erase-Distinct k m h.1, erase-Lacks j k m)

  keep-Lacks : (p : Text × V → Bool) (i : Text) (m : Dict V) → Lacks i m → Lacks i (keep p m)
  keep-Lacks p i [] h = tt
  keep-Lacks p i ((j, w) ∷ m) h = ground (arith, keep-Lacks p i m h.1)

  -- `delete` in a loop over the map.
  pub keep-Distinct : (p : Text × V → Bool) (m : Dict V) → Distinct m → Distinct (keep p m)
  keep-Distinct p [] h = tt
  keep-Distinct p ((j, w) ∷ m) h = ground (arith, keep-Distinct p m h.1, keep-Lacks p j m h.0)

  module _ {κ} (P : Text → V → Type κ) where
    pub Each-insert : (k : Text) (v : V) (m : Dict V) → P k v → Each P m → Each P (insert k v m)
    unfolding insert
    Each-insert k v [] p h = (p, tt)
    Each-insert k v ((j, w) ∷ m) p h = ground (arith, Each-insert k v m p h.1)

    pub Each-erase : (k : Text) (m : Dict V) → Each P m → Each P (erase k m)
    unfolding erase
    Each-erase k [] h = tt
    Each-erase k ((j, w) ∷ m) h = ground (arith, Each-erase k m h.1)

    pub Each-lookup : (k : Text) (v : V) (m : Dict V) → Each P m → lookup k m ≡ some v → P k v
    unfolding lookup
    Each-lookup k v [] h e = absurd (cc)
    Each-lookup k v ((j, w) ∷ m) h e = ground (arith, same_iff j k, h.0, Each-lookup k v m h.1)

    pub Each-keep : (p : Text × V → Bool) (m : Dict V) → Each P m → Each P (keep p m)
    Each-keep p [] h = tt
    Each-keep p ((j, w) ∷ m) h = ground (arith, Each-keep p m h.1)
