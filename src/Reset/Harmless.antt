-- ===== src/Reset/Harmless.antt =====
-- Which directories an accepted reset document cannot take along.
use leaf_syncthing_pak.Base.{Bool, false, ◌≡◌, List, [], ◌∷◌, ◌++◌, keep, not, All, Text, is_empty}
use leaf_syncthing_pak.Folders.Types.{Source}
use leaf_syncthing_pak.Reset.Documents.{
  ResetRoot, ResetDocument, Config, Filepath, is_some, relative_within,
}
use leaf_syncthing_pak.Reset.Own.{IsOwn}

-- The directories of saves, states and roms of the sources.
abbrev pub live_paths : List Source → List Text
live_paths [] = []
live_paths (source ∷ sources) =
    keep (λ live. not (is_empty live))
      (source.saves_path ∷ source.states_path ∷ source.roms_path ∷ [])
    ++ live_paths sources

module _ (fp : Filepath) where
  -- The path is the target or a directory above it, and is removed with it.
  abbrev pub holds : Text → Text → Bool
  holds path target = is_some (relative_within fp path target)

  -- The path is above no directory of saves, states or roms, and is none.
  abbrev pub Apart : Config → Text → Type 0
  Apart config path = All (λ live. holds path live ≡ false) (live_paths config.sources)

  -- The root is one of the paths that a reset may name, and no directory of saves, states or roms is
  -- removed with it.
  abbrev pub IsHarmless : Config → ResetDocument → ResetRoot → Type 0
  IsHarmless config d root = IsOwn fp config d root × Apart config root.path
