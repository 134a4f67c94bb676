-- ===== src/Coordinator/Depth.antt =====
-- The recursive deletion ends: paths get longer on the way down.
use collective.Prelude.{ℕ, ◌≤◌, ◌<◌, ◌≡◌, Option, some, length, All, ok}
use collective.Text.{Text}
use collective.Dict.{Dict, lookup}
use collective.Coordinator.{Coordinator, Directory, Answer}

-- Children have longer paths than their directory.
abbrev pub Deepens : Coordinator → Type 0
Deepens c =
    (path : Text) (d : Directory)
    → lookup path c.directories ≡ some d
    → All (λ child. length path < length child) d.children

-- No directory came in or changed.
abbrev pub Shrinks : Coordinator → Coordinator → Type 0
Shrinks c c' =
    (path : Text) (d : Directory)
    → lookup path c'.directories ≡ some d
    → lookup path c.directories ≡ some d

abbrev Bounds : ℕ → Coordinator → Type 0
Bounds longest c =
    (path : Text) (d : Directory) → lookup path c.directories ≡ some d → length path ≤ longest

-- A removal that ends with success.
abbrev Removes : Coordinator → Option Answer → Type 0
Removes c outcome = (c' : Coordinator) × (outcome ≡ some (ok tt, c')) × Shrinks c c'
