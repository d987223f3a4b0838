-- ===== src/Folders/Upstream.antt =====
-- internal/controller/onboarding.go: `b3FolderUpstream`, the part of Syncthing's API that changes
-- the managed folders.
use leaf_syncthing_pak.Base.{Bool, Option, List, Text}
use leaf_syncthing_pak.Folders.Types.{ConfiguredFolder}

-- An upstream with states in `U`. A call that changes it says whether it succeeded.
pub record Upstream (U : Type 0) : Type 0 where
  pub configured_folder_devices : Text → U → Option (List Text)
  pub add_managed_folder : ConfiguredFolder → U → U × Bool
  pub set_managed_folder_devices : ConfiguredFolder → U → U × Bool
  pub remove_managed_folder : Text → U → U × Bool
  pub set_folder_paused : Text → Bool → U → U × Bool
