-- ===== src/Coordinator/Unstored.antt =====
-- pkg/coordinator/coordinator_file.go: a write whose chunks no node takes.
use collective.Prelude.{◌≡◌, false}
use collective.Text.{Text}
use collective.Dict.{Dict}
use collective.Storage.{Chunk}
use collective.Coordinator.Contents.{NodeService}

-- Every request to store a chunk fails.
abbrev pub Refuses : NodeService → Type 0
Refuses service =
    (w : service.World) (address : Text) (chunk : Chunk) → (service.store w address chunk).0 ≡ false
