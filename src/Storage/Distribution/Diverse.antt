-- ===== src/Storage/Distribution/Diverse.antt =====
-- What `ensure_member_diversity` does to the nodes of a chunk.
use collective.Prelude.{
  ℕ, ◌+◌, ◌≤◌, ◌≡◌, refl, ap, inl, inr, true, ◌||◌, some, Bool-cases, List, [], ◌∷◌, ◌++◌, map,
  arith, length,
}
use collective.Text.{Text, same, same_iff}
use collective.Dict.{Dict, lookup}
use collective.Storage.Distribution.{
  StorageNode, member_of, holds, first_of_members, fill_up, diversify, ensure_member_diversity,
}

module _ (nodes : List StorageNode) where
  abbrev pub members_of : List Text → List Text
  members_of node_ids = map (member_of nodes) node_ids

  -- Every member is in the first pass's outcome, unless it was there before.
  first_of_members-holds :
      (member : Text) (members node_ids : List Text)
      → (holds member members
          || holds member (members_of (first_of_members nodes members node_ids)))
        ≡ (holds member members || holds member (members_of node_ids))
  unfolding first_of_members
  first_of_members-holds member members [] = refl
  first_of_members-holds member members (n ∷ ns) =
      elim (Bool-cases (holds (member_of nodes n) members)) [
        | inl e ↦ elim (Bool-cases (same member (member_of nodes n))) [
          | inl s ↦ ground (
            arith,
            s,
            e,
            (same_iff member (member_of nodes n)).0 s,
            ap (λ t. holds t members) ((same_iff member (member_of nodes n)).0 s),
          )
          | inr s ↦ ground (arith, s, e, first_of_members-holds member members ns)
        ]
        | inr e ↦ ground (arith, e, first_of_members-holds member (member_of nodes n ∷ members) ns)
      ]

  holds-append :
      (s : Text) (front back : List Text)
      → holds s (front ++ back) ≡ (holds s front || holds s back)
  holds-append s [] back = refl
  holds-append s (t ∷ front) back = ground (arith, holds-append s front back)

  map-append :
      (front back : List Text) → members_of (front ++ back) ≡ members_of front ++ members_of back
  map-append [] back = refl
  map-append (t ∷ front) back = ap (λ l. member_of nodes t ∷ l) (map-append front back)

  -- The second pass only adds.
  fill_up-keeps :
      (member : Text) (wanted : ℕ) (chosen node_ids : List Text)
      → holds member (members_of chosen) ≡ true
      → holds member (members_of (fill_up nodes wanted chosen node_ids)) ≡ true
  unfolding fill_up
  fill_up-keeps member wanted chosen [] h = h
  fill_up-keeps member wanted chosen (n ∷ ns) h = ground (
    arith,
    fill_up-keeps member wanted chosen ns h,
    fill_up-keeps member wanted (chosen ++ (n ∷ [])) ns (
        ground (
          arith,
          map-append chosen (n ∷ []),
          holds-append member (members_of chosen) (members_of (n ∷ [])),
        )),
  )

  -- Nothing new comes in.
  fill_up-holds :
      (s : Text) (wanted : ℕ) (chosen node_ids : List Text)
      → holds s (fill_up nodes wanted chosen node_ids) ≡ true
      → (holds s chosen || holds s node_ids) ≡ true
  unfolding fill_up
  fill_up-holds s wanted chosen [] h = ground arith
  fill_up-holds s wanted chosen (n ∷ ns) h = ground (
    arith,
    holds-append s chosen (n ∷ []),
    fill_up-holds s wanted chosen ns,
    fill_up-holds s wanted (chosen ++ (n ∷ [])) ns,
  )

  length-append_one :
      (chosen : List Text) (n : Text) → length (chosen ++ (n ∷ [])) ≡ length chosen + 1
  length-append_one [] n = refl
  length-append_one (c ∷ chosen) n = ground (arith, length-append_one chosen n)

  length-fill_up-le :
      (wanted : ℕ) (chosen node_ids : List Text)
      → length chosen ≤ wanted
      → length (fill_up nodes wanted chosen node_ids) ≤ wanted
  unfolding fill_up
  length-fill_up-le wanted chosen [] h = h
  length-fill_up-le wanted chosen (n ∷ ns) h = ground (
    arith,
    length-append_one chosen n,
    length-fill_up-le wanted chosen ns,
    length-fill_up-le wanted (chosen ++ (n ∷ [])) ns,
  )

  first_of_members-subset :
      (s : Text) (members node_ids : List Text)
      → holds s (first_of_members nodes members node_ids) ≡ true
      → holds s node_ids ≡ true
  unfolding first_of_members
  first_of_members-subset s members [] h = h
  first_of_members-subset s members (n ∷ ns) h = ground (
    arith,
    first_of_members-subset s members ns,
    first_of_members-subset s (member_of nodes n ∷ members) ns,
  )

  length-first_of_members-le :
      (members node_ids : List Text)
      → length (first_of_members nodes members node_ids) ≤ length node_ids
  unfolding first_of_members
  length-first_of_members-le members [] = omega arith
  length-first_of_members-le members (n ∷ ns) = ground (
    arith,
    length-first_of_members-le members ns,
    length-first_of_members-le (member_of nodes n ∷ members) ns,
  )

  ensure_member_diversity-lookup :
      (chunk_id : Text) (node_ids : List Text) (d : Dict (List Text))
      → lookup chunk_id d ≡ some node_ids
      → lookup chunk_id (ensure_member_diversity nodes d) ≡ some (diversify nodes node_ids)
  unfolding ensure_member_diversity lookup
  ensure_member_diversity-lookup chunk_id node_ids [] h = absurd cc
  ensure_member_diversity-lookup chunk_id node_ids ((k, ids) ∷ d) h =
      ground (arith, ap (diversify nodes), ensure_member_diversity-lookup chunk_id node_ids d)

  diversify-holds :
      (s : Text) (node_ids : List Text)
      → holds s (diversify nodes node_ids) ≡ true
      → holds s node_ids ≡ true
  unfolding diversify
  diversify-holds s node_ids h = ground (
    arith,
    fill_up-holds s (length node_ids) (first_of_members nodes [] node_ids) node_ids,
    first_of_members-subset s [] node_ids,
  )

  members_of-fill_up :
      (s : Text) (node_ids : List Text)
      → holds s node_ids ≡ true
      → holds (member_of nodes s) (members_of node_ids) ≡ true
  members_of-fill_up s [] h = h
  members_of-fill_up s (n ∷ ns) h = ground (
    arith,
    (same_iff s n).0,
    ap (member_of nodes),
    (same_iff (member_of nodes s) (member_of nodes n)).1,
    members_of-fill_up s ns,
  )

  -- `ensure_member_diversity` keeps every chunk's entry: it names no node that was not named
  -- before, no more nodes than before, and still a node of every member that had one.
  holds-ensure_member_diversity :
      (chunk_id : Text) (node_ids : List Text) (allocations : Dict (List Text))
      → lookup chunk_id allocations ≡ some node_ids
      → (chosen : List Text) × (lookup chunk_id (ensure_member_diversity nodes allocations)
          ≡ some chosen)
        × (length chosen ≤ length node_ids)
        × ((s : Text) → holds s chosen ≡ true → holds s node_ids ≡ true)
        × ((member : Text)
            → holds member (map (member_of nodes) node_ids) ≡ true
            → holds member (map (member_of nodes) chosen) ≡ true)
  holds-ensure_member_diversity chunk_id node_ids allocations h = (
    diversify nodes node_ids,
    ensure_member_diversity-lookup chunk_id node_ids allocations h,
    unfold diversify in
        length-fill_up-le (length node_ids) (first_of_members nodes [] node_ids) node_ids
          (length-first_of_members-le [] node_ids),
    λ s e. diversify-holds s node_ids e,
    λ member e.
        unfold diversify in
        fill_up-keeps member (length node_ids) (first_of_members nodes [] node_ids) node_ids
          (ground (arith, first_of_members-holds member [] node_ids)),
  )
