-- ===== src/Node.antt =====
-- pkg/node/node.go: the chunks of a storage node and its capacity. What the file system answers
-- comes in with each call. The mutex guards the chunks, and a request is one step;
-- the source tests the capacity before it takes the mutex, so two stores at once are not modelled.
pub mod Kept
pub mod Restart
pub mod Accounting
use collective.Prelude.{
  not, ◌&&◌, any, map, ℕ, ◌+◌, ◌-◌, ◌≡◌, Bool, true, false, Option, none, some, List, [], ◌∷◌, ◌++◌,
  arith, if◌then◌else◌, ◌==◌, ltb, length, Result, ok, err,
}
use collective.Text.{Text, bytes, same, has_prefix}
use collective.Text.Split.{join}
use collective.FilePath.{slash, clean, up_to_slash}
use collective.Dict.{Dict, lookup, insert, erase}
use collective.Storage.{Codec, Chunk, hex, drop}

-- The fields that these methods read or write, and the node's files by their paths.
pub record Node : Type 0 where
  pub data_dir : Text
  pub total_capacity : ℕ
  pub used_capacity : ℕ
  pub chunks : Dict Chunk
  pub files : Dict (List ℕ)

pub data NodeError : Type 0 where
  insufficient_capacity cannot_make_directory cannot_write chunk_not_found cannot_read : NodeError

-- NewWithAuth, on the files that are there
abbrev pub new_node : Text → ℕ → Dict (List ℕ) → Node
new_node data_dir total_capacity files = record {
  data_dir = data_dir;
  total_capacity = total_capacity;
  used_capacity = 0;
  chunks = [];
  files = files;
}

-- filepath.Join
unfoldable pub join_path : List Text → Text
join_path [] = []
join_path (part ∷ parts) =
    let rest = join_path parts in if same part [] then rest else clean (join slash (part ∷ parts))

-- Where a chunk is written, and where one is read that is not in memory.
abbrev pub chunk_path : Node → Text → Text
chunk_path n chunk_id = join_path (join_path (n.data_dir ∷ bytes "chunks" ∷ []) ∷ chunk_id ∷ [])

abbrev pub loaded_path : Node → Text → Text
loaded_path n chunk_id = join_path (n.data_dir ∷ chunk_id ∷ [])

-- What os.MkdirAll and os.WriteFile did; a write that fails may leave something.
pub data DiskOutcome : Type 0 where
  makes_no_directory : DiskOutcome
  writes_no_file : Option (List ℕ) → DiskOutcome
  writes : DiskOutcome

-- A write that failed.
abbrev pub left_over : Option (List ℕ) → Text → Node → Node
left_over none path n = n
left_over (some content) path n = record n { files = insert path content n.files }

-- StoreChunkRequest
pub record StoreRequest : Type 0 where
  pub chunk_id : Text
  pub file_id : Text
  pub index : ℕ
  pub content : List ℕ

abbrev pub requested_chunk : Codec → StoreRequest → Chunk
requested_chunk codec request = record {
  id = request.chunk_id;
  file_id = request.file_id;
  index = request.index;
  size = length request.content;
  original_size = 0;
  hash = hex (codec.sha256 request.content);
  content = request.content;
  compressed = false;
}

-- The end of StoreChunk, after the write.
abbrev pub keep_chunk : Codec → StoreRequest → Node → Node
keep_chunk codec request n = record n {
  files = insert (chunk_path n request.chunk_id) request.content n.files;
  chunks = insert request.chunk_id (requested_chunk codec request) n.chunks;
  used_capacity = n.used_capacity + length request.content;
}

-- StoreChunk
unfoldable pub store_chunk :
    Codec → DiskOutcome → StoreRequest → Node → Result NodeError (Unit {0}) × Node
store_chunk codec outcome request n =
    if ltb n.total_capacity (n.used_capacity + length request.content)
    then (err insufficient_capacity, n)
    else (elim outcome [
      | makes_no_directory ↦ (err cannot_make_directory, n)
      | writes_no_file left ↦ (err cannot_write, left_over left (chunk_path n request.chunk_id) n)
      | writes ↦ (ok tt, keep_chunk codec request n)
    ])

-- RetrieveChunk; `chunk.Data == nil` is no content, as gRPC decodes empty data as nil
unfoldable pub retrieve_chunk : Text → Node → Result NodeError (List ℕ)
retrieve_chunk chunk_id n = elim (lookup chunk_id n.chunks) [
  | none ↦ err chunk_not_found
  | some chunk ↦
      if same chunk.content []
      then (elim (lookup (loaded_path n chunk_id) n.files) [
        | none ↦ err cannot_read
        | some content ↦ ok content
      ])
      else ok chunk.content
]

-- DeleteChunk; os.Remove may fail, which is only logged
unfoldable pub delete_chunk : Bool → Text → Node → Result NodeError (Unit {0}) × Node
delete_chunk removes chunk_id n = elim (lookup chunk_id n.chunks) [
  | none ↦ (err chunk_not_found, n)
  | some chunk ↦ (
    ok tt,
    record n {
      chunks = erase chunk_id n.chunks;
      used_capacity = n.used_capacity - chunk.size;
      files = if removes then erase (chunk_path n chunk_id) n.files else n.files;
    },
  )
]

-- GetCapacityResponse
pub record Capacity : Type 0 where
  pub total : ℕ
  pub used : ℕ
  pub available : ℕ

-- GetCapacity
unfoldable pub get_capacity : Node → Capacity
get_capacity n = record {
  total = n.total_capacity;
  used = n.used_capacity;
  available = n.total_capacity - n.used_capacity;
}

-- A path without the slashes at its end.
unfoldable pub without_slashes : Text → Text
without_slashes [] = []
without_slashes (c ∷ path) =
    let rest = without_slashes path in
    if c == slash then if same rest [] then [] else c ∷ rest else c ∷ rest

-- filepath.Base
unfoldable pub base : Text → Text
unfolding without_slashes up_to_slash drop
base path =
    if same path []
    then bytes "."
    else if same (without_slashes path) []
    then slash ∷ []
    else drop (length (up_to_slash (without_slashes path))) (without_slashes path)

abbrev pub loaded_chunk : Text → ℕ → Chunk
loaded_chunk chunk_id size = record {
  id = chunk_id;
  file_id = [];
  index = 0;
  size = size;
  original_size = 0;
  hash = [];
  content = [];
  compressed = false;
}

-- A path up to its first slash.
unfoldable pub first_part : Text → Text
first_part [] = []
first_part (c ∷ path) = let rest = first_part path in if c == slash then [] else c ∷ rest

-- The names that stand in the directory, a text that ends in a slash, when these paths are there.
unfoldable pub names_in : Text → List Text → List Text
unfolding first_part drop
names_in directory [] = []
names_in directory (path ∷ paths) =
    let others = names_in directory paths in
    let name = first_part (drop (length directory) path) in
    if has_prefix path directory
      && not (same name [])
      && not (any (λ other. same other name) others)
    then name ∷ others
    else others

-- filepath.Glob of the data directory's entries, by the node's files and these directories; the data
-- directory's own path has no pattern in it.
unfoldable pub glob_entries : Node → List Text → List Text
unfolding names_in join_path up_to_slash
glob_entries n directories =
    map (λ name. join_path (n.data_dir ∷ name ∷ []))
      (names_in (up_to_slash (join_path (n.data_dir ∷ bytes "*" ∷ [])))
        (map (λ entry. entry.0) n.files ++ directories))

-- os.Stat's size: the length of a file, and of a directory what the file system says.
abbrev pub size_of : (Text → Option ℕ) → Dict (List ℕ) → Text → Option ℕ
size_of stat files path = elim (lookup path files) [
  | none ↦ stat path
  | some content ↦ some (length content)
]

-- The loop of loadExistingChunks, by the sizes.
unfoldable pub load_found : (Text → Option ℕ) → List Text → Node → Node
unfolding base
load_found size [] n = n
load_found size (file ∷ found) n = elim (size file) [
  | none ↦ load_found size found n
  | some bytes_held ↦ load_found size found (record n {
    chunks = insert (base file) (loaded_chunk (base file) bytes_held) n.chunks;
    used_capacity = n.used_capacity + bytes_held;
  })
]

-- loadExistingChunks
unfoldable pub load_existing_chunks : (Text → Option ℕ) → List Text → Node → Node
unfolding glob_entries load_found
load_existing_chunks stat directories n =
    load_found (size_of stat n.files) (glob_entries n directories) n
