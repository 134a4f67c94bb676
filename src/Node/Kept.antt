-- ===== src/Node/Kept.antt =====
-- pkg/node/node.go: what a node gives back of what it was given, before and after a restart.
use collective.Prelude.{
  Option-cases, ℕ, ◌+◌, ◌-◌, ◌≤◌, ◌≡◌, ◌≢◌, refl, sym, ◌∙◌, ◌⊎◌, inl, inr, Bool, Bool-cases, none,
  some, List, [], arith, ltb, length, ok, err,
}
use collective.Text.{Text, same, same_iff}
use collective.Dict.{lookup, lookup-insert, lookup-insert_self, lookup-erase}
use collective.Storage.{Codec, Chunk}
use collective.Node.{
  Node, NodeError, DiskOutcome, StoreRequest, store_chunk, retrieve_chunk, delete_chunk,
  loaded_path, cannot_read, writes, makes_no_directory, writes_no_file, insufficient_capacity,
  cannot_make_directory, cannot_write, keep_chunk, requested_chunk, chunk_not_found, get_capacity,
}

-- What is given back under an id that was kept: the content, and where that is empty what stands at the
-- path at which chunks found at a start are read.
abbrev pub IsGivenBack : StoreRequest → Node → Type 0
IsGivenBack request n =
    ((request.content ≢ []) × (retrieve_chunk request.chunk_id n ≡ ok request.content))
    ⊎ ((request.content ≡ [])
        × (((lookup (loaded_path n request.chunk_id) n.files ≡ none)
              × (retrieve_chunk request.chunk_id n ≡ err cannot_read))
            ⊎ ((found : List ℕ) × (lookup (loaded_path n request.chunk_id) n.files ≡ some found)
                × (retrieve_chunk request.chunk_id n ≡ ok found))))

keep_chunk-IsGivenBack :
    (codec : Codec) (request : StoreRequest) (n : Node)
    → IsGivenBack request (keep_chunk codec request n)
unfolding retrieve_chunk
keep_chunk-IsGivenBack codec request n =
    let kept = lookup-insert_self request.chunk_id (requested_chunk codec request) n.chunks in
    let after = keep_chunk codec request n in
    elim (Bool-cases (same request.content [])) [
      | inr e ↦ inl (
        λ q. absurd (ground (arith, e, (same_iff request.content []).1 q)),
        rw (kept, e, retrieve_chunk) refl,
      )
      | inl e ↦ inr (
        (same_iff request.content []).0 e,
        elim (Option-cases (lookup (loaded_path after request.chunk_id) after.files)) [
          | inl none_there ↦ inl (none_there, rw (retrieve_chunk, kept, e, none_there) refl)
          | inr (found, there) ↦ inr (found, there, rw (retrieve_chunk, kept, e, there) refl)
        ],
      )
    ]

lookup-keep_chunk :
    (codec : Codec) (request : StoreRequest) (n : Node) (key : Text)
    → (key ≡ request.chunk_id)
      ⊎ (lookup key (keep_chunk codec request n).chunks ≡ lookup key n.chunks)
lookup-keep_chunk codec request n key = elim (Bool-cases (same request.chunk_id key)) [
  | inl e ↦ inl (sym ((same_iff request.chunk_id key).0 e))
  | inr e ↦ inr (
      ground
        (arith, e, lookup-insert request.chunk_id key (requested_chunk codec request) n.chunks))
]

-- A chunk that was stored is given back where its content is not empty; an empty one is not: a file at
-- the id's path in the data directory itself is given instead, or where there is none an error. The
-- chunks of other ids are the same in memory. The store succeeds exactly if the content fits into what is left of the capacity and
-- the write succeeds; where it fails the chunks and the used capacity are the same.
pub retrieve_chunk-store_chunk :
    (codec : Codec) (outcome : DiskOutcome) (request : StoreRequest) (n : Node)
    → ((outcome ≡ writes)
        × (n.used_capacity + length request.content ≤ n.total_capacity)
        × ((store_chunk codec outcome request n).0 ≡ ok tt)
        × IsGivenBack request (store_chunk codec outcome request n).1
        × ((key : Text)
            → (key ≡ request.chunk_id)
              ⊎ (lookup key (store_chunk codec outcome request n).1.chunks ≡ lookup key n.chunks)))
      ⊎ ((e : NodeError) × ((store_chunk codec outcome request n).0 ≡ err e)
          × ((store_chunk codec outcome request n).1.chunks ≡ n.chunks)
          × ((store_chunk codec outcome request n).1.used_capacity ≡ n.used_capacity)
          × ¬ ((outcome ≡ writes) × (n.used_capacity + length request.content ≤ n.total_capacity)))
unfolding store_chunk
retrieve_chunk-store_chunk codec makes_no_directory request n =
    elim (Bool-cases (ltb n.total_capacity (n.used_capacity + length request.content))) [
      | inl full ↦ rw full (inr (insufficient_capacity, refl, refl, refl, λ h. absurd (cc)))
      | inr room ↦ rw room (inr (cannot_make_directory, refl, refl, refl, λ h. absurd (cc)))
    ]
retrieve_chunk-store_chunk codec (writes_no_file none) request n =
    elim (Bool-cases (ltb n.total_capacity (n.used_capacity + length request.content))) [
      | inl full ↦ rw full (inr (insufficient_capacity, refl, refl, refl, λ h. absurd (cc)))
      | inr room ↦ rw room (inr (cannot_write, refl, refl, refl, λ h. absurd (cc)))
    ]
retrieve_chunk-store_chunk codec (writes_no_file (some left)) request n =
    elim (Bool-cases (ltb n.total_capacity (n.used_capacity + length request.content))) [
      | inl full ↦ rw full (inr (insufficient_capacity, refl, refl, refl, λ h. absurd (cc)))
      | inr room ↦ rw room (inr (cannot_write, refl, refl, refl, λ h. absurd (cc)))
    ]
retrieve_chunk-store_chunk codec writes request n =
    elim (Bool-cases (ltb n.total_capacity (n.used_capacity + length request.content))) [
      | inl full ↦
          rw full (inr (insufficient_capacity, refl, refl, refl, λ h. ground (arith, full, h.1)))
      | inr room ↦ rw room (
          inl (
            refl,
            ground (arith, room),
            refl,
            keep_chunk-IsGivenBack codec request n,
            lookup-keep_chunk codec request n,
          ))
    ]

store_chunk_fits :
    (codec : Codec) (request : StoreRequest) (n : Node)
    → n.used_capacity + length request.content ≤ n.total_capacity
    → store_chunk codec writes request n ≡ (ok tt, keep_chunk codec request n)
unfolding store_chunk
store_chunk_fits codec request n room = ground (arith, room)

delete_chunk_found :
    (removes : Bool) (chunk_id : Text) (chunk : Chunk) (n : Node)
    → lookup chunk_id n.chunks ≡ some chunk
    → ((delete_chunk removes chunk_id n).0 ≡ ok tt)
      × (lookup chunk_id (delete_chunk removes chunk_id n).1.chunks ≡ none)
      × ((delete_chunk removes chunk_id n).1.used_capacity ≡ n.used_capacity - chunk.size)
unfolding delete_chunk
delete_chunk_found removes chunk_id chunk n h =
    rw (h, delete_chunk)
      (
        refl,
        ground (arith, lookup-erase chunk_id chunk_id n.chunks, same_iff chunk_id chunk_id),
        refl,
      )

pub retrieve_chunk_missing :
    (chunk_id : Text) (n : Node)
    → lookup chunk_id n.chunks ≡ none
    → retrieve_chunk chunk_id n ≡ err chunk_not_found
unfolding retrieve_chunk
retrieve_chunk_missing chunk_id n h = rw (h, retrieve_chunk) refl

-- A chunk that is stored twice and deleted once is gone, and its length is still taken from the
-- capacity.
pub get_capacity-store_chunk_twice :
    (codec : Codec) (request : StoreRequest) (removes : Bool) (n : Node)
    → n.used_capacity + length request.content + length request.content ≤ n.total_capacity
    → let once = store_chunk codec writes request n in
      let twice = store_chunk codec writes request once.1 in
      let deleted = delete_chunk removes request.chunk_id twice.1 in
      (deleted.0 ≡ ok tt)
      × (retrieve_chunk request.chunk_id deleted.1 ≡ err chunk_not_found)
      × ((get_capacity deleted.1).used ≡ n.used_capacity + length request.content)
unfolding store_chunk delete_chunk retrieve_chunk get_capacity
get_capacity-store_chunk_twice codec request removes n room =
    let kept = keep_chunk codec request (keep_chunk codec request n) in
    let gone = delete_chunk_found removes request.chunk_id (requested_chunk codec request) kept (
      lookup-insert_self request.chunk_id (requested_chunk codec request)
        (keep_chunk codec request n).chunks) in
    rw
      (
        store_chunk_fits codec request n (omega arith),
        store_chunk_fits codec request (keep_chunk codec request n) room,
      )
      (
        gone.0,
        retrieve_chunk_missing request.chunk_id (delete_chunk removes request.chunk_id kept).1
            gone.1,
        gone.2 ∙ omega arith,
      )
