-- ===== src/Folders/Rows.antt =====
-- internal/controller/folders.go: the row of a folder, the checks that mark it with issues and
-- reasons to pause, and its labels. An issue is its code; the source's messages are left out.
use leaf_syncthing_pak.Base.{
  ℕ, ◌-◌, Bool, true, false, not, ◌&&◌, ◌||◌, List, [], ◌∷◌, ◌++◌, length, keep, any, if◌then◌else◌,
  Text, codes, text_eq, is_empty, Dict, insert,
}
use leaf_syncthing_pak.Folders.Types.{Source, Card, ConfiguredFolder}
use leaf_syncthing_pak.Folders.Store.{FolderControlRecord}

pub data IssueCode : Type 0 where
  unsafe_folder_kind unregistered_folder unknown_card_binding duplicate_card_id : IssueCode
  unsafe_folder_path card_unavailable unsupported_folder_type card_read_only : IssueCode
  unsafe_folder_marker foreign_folder_manager marker_missing unsafe_versioning : IssueCode
  folder_sync_error : IssueCode

pub record FolderStatus : Type 0 where
  pub id : Text
  pub label : Text
  pub card_id : Text
  pub kind : Text
  pub path : Text
  pub type : Text
  pub state : Text
  pub paused : Bool
  pub pause_reasons : List Text
  pub pending_rescan : Bool
  pub peer_count : ℕ
  pub device_ids : List Text
  pub versioning : Text
  pub issues : List IssueCode

-- What `os.Lstat` finds.
pub data Lstat : Type 0 where
  missing unreadable symlink directory other : Lstat

pub data Marker : Type 0 where
  sound marker_collision unsafe_root foreign_marker no_marker failed : Marker

abbrev also : Bool → IssueCode → List IssueCode → List IssueCode
also false code issues = issues
also true code issues = issues ++ code ∷ []

-- `addFolderIssue` under a test.
abbrev pub mark : FolderStatus → Bool → IssueCode → FolderStatus
mark row test code = record row { issues = also test code row.issues }

unfoldable pub append_unique : List Text → Text → List Text
append_unique values value =
    if any (λ v. text_eq v value) values then values else values ++ value ∷ []

-- A check that also gives a reason to pause.
abbrev pub mark_and_pause : FolderStatus → Bool → IssueCode → List Text → FolderStatus
mark_and_pause row test code reasons = record row {
  issues = also test code row.issues;
  pause_reasons = if test then reasons else row.pause_reasons;
}

-- The row of a folder without a usable binding.
abbrev pub refused : FolderStatus → FolderStatus
refused row = record row {
  pause_reasons = append_unique row.pause_reasons (codes "health");
  paused = true;
  state = codes "error";
}

abbrev pub reason : Bool → Text → List Text
reason true r = r ∷ []
reason false r = []

abbrev pub reasons_of : FolderControlRecord → List Text
reasons_of c =
    reason c.manual (codes "manual")
    ++ (reason c.first_sync (codes "first-sync")
        ++ (reason (not (is_empty c.pending_membership)) (codes "membership")
            ++ reason c.pending_stop (codes "stop")))

unfoldable pub folder_kind_label : Text → Text
folder_kind_label kind =
    if text_eq kind (codes "saves")
    then codes "Saves"
    else if text_eq kind (codes "states")
    then codes "States"
    else codes "Folder (" ++ kind ++ codes ")"

unfoldable pub source_label : Source → Text
source_label source =
    if source.primary || text_eq source.id (codes "primary")
    then codes "Primary"
    else if text_eq source.id (codes "secondary_sd")
    then codes "Secondary"
    else source.id

abbrev pub zero_record : FolderControlRecord
zero_record = record {
  card_id = [];
  kind = [];
  marker_name = [];
  manual = false;
  first_sync = false;
  first_sync_epoch = 0;
  pending_rescan = false;
  pending_add = false;
  pending_membership = [];
  pending_device_id = [];
  pending_stop = false;
}

abbrev or_else : Text → Text → Text
or_else text default = if is_empty text then default else text

unfoldable pub first_row : ConfiguredFolder → FolderControlRecord → FolderStatus
first_row folder control = record {
  id = folder.id;
  label = or_else folder.label (codes "Leaf " ++ folder_kind_label folder.kind);
  card_id = [];
  kind = folder.kind;
  path = folder.path;
  type = folder.type;
  state = codes "idle";
  paused = false;
  pause_reasons = reasons_of control;
  pending_rescan = control.pending_rescan;
  peer_count = length folder.devices - 1;
  device_ids = folder.devices;
  versioning = or_else folder.versioning_type (codes "none");
  issues = [];
}

-- `cardsByID[id]`.
unfoldable pub cards_with : Text → List Card → List Card
cards_with id inventory =
    keep (λ card. not (is_empty card.identity_id) && text_eq card.identity_id id) inventory

abbrev pub has_issues : List IssueCode → Bool
has_issues [] = false
has_issues _ = true

abbrev pub has_reasons : List Text → Bool
has_reasons [] = false
has_reasons _ = true

-- The end of the loop's body.
unfoldable pub settled : FolderStatus → FolderStatus
settled row =
    let sick = has_issues row.issues in
    let reasons =
      if sick then append_unique row.pause_reasons (codes "health") else row.pause_reasons in
    let held = has_reasons reasons in
    record row {
      pause_reasons = reasons;
      paused = held;
      state = if sick then codes "error" else if held then codes "paused" else row.state;
    }

-- The assignments to the map, in the order of the rows.
unfoldable pub assign_paused : List FolderStatus → Dict Bool → Dict Bool
assign_paused [] result = result
assign_paused (row ∷ rows) result = assign_paused rows (insert row.id row.paused result)

-- The code for what `ValidateManagedMarker` returned.
abbrev after_marker : Marker → List IssueCode → List IssueCode
after_marker sound issues = issues
after_marker foreign_marker issues = issues ++ foreign_folder_manager ∷ []
after_marker no_marker issues = issues ++ marker_missing ∷ []
after_marker _ issues = issues ++ unsafe_folder_marker ∷ []

-- A marker that is not looked for is no issue.
abbrev pub mark_marker : FolderStatus → Bool → Marker → FolderStatus
mark_marker row looked found = record row {
  issues = if looked then after_marker found row.issues else row.issues;
}

abbrev pub at_path : (clean : Text → Text) → ConfiguredFolder → Text → Bool
at_path clean folder expected =
    not (is_empty expected) && text_eq (clean folder.path) (clean expected)

abbrev pub is_type : ConfiguredFolder → Bool
is_type folder =
    text_eq folder.type (codes "sendonly")
    || text_eq folder.type (codes "sendreceive")
    || text_eq folder.type (codes "receiveonly")

abbrev pub receives : ConfiguredFolder → Bool
receives folder = not (text_eq folder.type (codes "sendonly"))

abbrev pub versions_kept :
    (clean : Text → Text) (join : List Text → Text) → ConfiguredFolder → Card → Bool
versions_kept clean join folder card =
    text_eq folder.versioning_type (codes "simple")
    && text_eq (clean folder.versioning_fs_path) (
        clean (
          join
            (card.source.userdata_path ∷ codes "Syncthing" ∷ codes "versions" ∷ folder.kind ∷ [])))
    && text_eq folder.versioning_fs_type (codes "basic")

abbrev pub storage_reason : Card → Text
storage_reason card = codes "storage:" ++ card.identity_id
