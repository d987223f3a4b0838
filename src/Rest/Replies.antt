-- ===== src/Rest/Replies.antt =====
-- The replies of the Syncthing process to `apiJSON`: a decoded document, or an error that is or is not
-- `context.DeadlineExceeded`. The documents are those of internal/syncthing/ui.go, as far as the
-- modelled code reads them.
use leaf_syncthing_pak.Base.{arith, ◌≡◌, refl, Bool, List, Text, Dict, ℤ}

pub data Reply {ℓ} (A : Type ℓ) : Type ℓ where
  got : A → Reply A
  lost : Bool → Reply A

infixl 4 ◌>>=◌
unfoldable pub ◌>>=◌ : {A B : Type 0} → Reply A → (A → Reply B) → Reply B
got a >>= f = f a
lost e >>= f = lost e

-- What came first when the second reply was got.
pub next-got :
    {A B : Type 0} (r : Reply A) (k : A → Reply B) (b : B)
    → (r >>= k) ≡ got b
    → (a : A) × (r ≡ got a) × (k a ≡ got b)
unfolding ◌>>=◌
next-got (got a) k b h = (a, refl, h)
next-got (lost e) k b h = absurd (ground arith)

pub record UiDevice : Type 0 where
  pub device_id : Text
  pub name : Text
  pub paused : Bool
  pub introducer : Bool
  pub introduced_by : Text

pub record UiConnection : Type 0 where
  pub connected : Bool
  pub paused : Bool
  pub address : Text
  pub type : Text
  pub is_local : Bool
  pub in_bytes : ℤ
  pub out_bytes : ℤ

pub record UiDbStatus : Type 0 where
  pub state : Text
  pub local_bytes : ℤ
  pub global_bytes : ℤ
  pub need_bytes : ℤ
  pub need_total_items : ℤ
  pub local_files : ℤ
  pub local_directories : ℤ
  pub local_symlinks : ℤ
  pub global_files : ℤ
  pub global_directories : ℤ
  pub global_symlinks : ℤ
  pub errors : ℤ
  pub pull_errors : ℤ
  pub state_change : Text

pub record UiCompletion : Type 0 where
  pub need_bytes : ℤ
  pub need_items : ℤ
  pub need_deletes : ℤ
  pub remote_state : Text

-- The replies to the requests of one read; a folder's status by its id, and the completion by the
-- device and the folder.
pub record Responses : Type 0 where
  pub devices : Reply (List UiDevice)
  pub connections : Reply (Dict UiConnection)
  pub status : Text → Reply UiDbStatus
  pub completion : Text → Text → Reply UiCompletion
