-- ===== src/Folders/Types.antt =====
-- The data that the folder code shares: `ConfiguredFolder` of internal/syncthing/folders.go and
-- `Card` of internal/cards/cards.go with the `Source` of internal/leaf/sources.go, as far as the
-- modelled code reads them.
use leaf_syncthing_pak.Base.{
  Bool, true, false, not, ◌&&◌, List, [], Text, codes, text_eq, is_empty, if◌then◌else◌,
}

pub record Source : Type 0 where
  pub id : Text
  pub primary : Bool
  pub root : Text
  pub roms_path : Text
  pub userdata_path : Text
  pub saves_path : Text
  pub states_path : Text

pub data CardState : Type 0 where
  absent unenrolled enrolled invalid duplicate : CardState

pub record Card : Type 0 where
  pub source : Source
  pub identity_id : Text
  pub state : CardState
  pub present : Bool
  pub writable : Bool
  pub duplicate_id : Bool

pub record ConfiguredFolder : Type 0 where
  pub id : Text
  pub label : Text
  pub kind : Text
  pub path : Text
  pub type : Text
  pub marker_name : Text
  pub paused : Bool
  pub versioning_type : Text
  pub versioning_fs_path : Text
  pub versioning_fs_type : Text
  pub devices : List Text

abbrev pub is_enrolled : CardState → Bool
is_enrolled enrolled = true
is_enrolled _ = false

-- internal/controller/first_sync.go, `usableEnrolledCard`.
unfoldable pub usable_enrolled_card : Card → Bool
usable_enrolled_card card =
    not (is_empty card.identity_id)
    && is_enrolled card.state
    && card.present
    && card.writable
    && not card.duplicate_id

-- internal/controller/folders.go, `managedContentPath`.
unfoldable pub managed_content_path : Source → Text → Text
unfolding text_eq
managed_content_path source kind =
    if text_eq kind (codes "saves")
    then source.saves_path
    else if text_eq kind (codes "states")
    then source.states_path
    else []
