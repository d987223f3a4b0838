-- ===== src/Config/Monad.antt =====
-- The configuration directory under calls that may fail: a computation takes the directory and
-- returns its result or error with the directory that it leaves. A crash in the middle is a call
-- that fails and whose error nobody sees, so that every state at which the code can be
-- interrupted is the final state of a run with failing calls.
use leaf_syncthing_pak.Base.{Bool, true, false, ◌&&◌}
use leaf_syncthing_pak.Config.Files.{Entry, Dir, is_present}

-- The errors, one for each message of the source.
pub data Err : Type 0 where
  call_failed : Err
  unsafe_directory : Err
  unsafe_file : Err
  oversized : Err
  stale_temporary : Err
  unsafe_backup : Err
  rejected_temporary : Err
  restored_backup : Err
  restore_failed : Err
  restored_invalid : Err
  no_known_good_config : Err

pub data Result {ℓ} (A : Type ℓ) : Type ℓ where
  ok : A → Result A
  err : Err → Result A

abbrev pub M : Type 0 → Type 0
M A = Dir → Result A × Dir

abbrev pub pass : {A : Type 0} → A → M A
pass a d = (ok a, d)

abbrev pub throw : {A : Type 0} → Err → M A
throw e d = (err e, d)

infixl 5 ◌>>=◌ ◌>>◌
abbrev pub ◌>>=◌ : {A B : Type 0} → M A → (A → M B) → M B
◌>>=◌ m f d = let (r, d') = m d in elim r [ ok a ↦ f a d' | err e ↦ (err e, d') ]

abbrev pub ◌>>◌ : {B : Type 0} → M (Unit {0}) → M B → M B
m >> k = m >>= λ _. k

-- `if err := …; err != nil { return …, e }`
abbrev pub require : Bool → Err → M (Unit {0})
require true e d = (ok tt, d)
require false e d = (err e, d)

abbrev pub when : Bool → M (Unit {0}) → M (Unit {0})
when true m d = m d
when false m d = (ok tt, d)

abbrev pub branch : {A : Type 0} → Bool → M A → M A → M A
branch true m k d = m d
branch false m k d = k d

-- A write to one entry of the directory by a call that succeeds or leaves it alone.
abbrev pub attempt : Bool → (Dir → Dir) → M (Unit {0})
attempt true change d = (ok tt, change d)
attempt false change d = (err call_failed, d)

-- `os.Rename`, which fails where nothing stands at the old name.
abbrev pub move : Bool → (Dir → Entry) → (Dir → Dir) → M (Unit {0})
move works source change d = attempt (works && is_present (source d)) change d

-- The same error under the name that the caller gives it.
abbrev pub named : Err → M (Unit {0}) → M (Unit {0})
named e m d = let (r, d') = m d in elim r [ ok a ↦ (ok a, d') | err _ ↦ (err e, d') ]
