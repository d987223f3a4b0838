-- ===== src/Config/Files.antt =====
-- What internal/syncthing/config_recovery.go and offline_pause.go see of the configuration
-- directory: config.xml, config.xml.tmp, config.xml.bak and the two identity files, each absent,
-- a real regular file, or something else (a symlink, a directory). The contents of a file are seen
-- only through Go's XML decoder: a file is its size and the tokens that the decoder returns, `bad`
-- being a decoder error.
use leaf_syncthing_pak.Base.{
  ℕ, zero, suc, ◌*◌, Bool, true, false, ◌&&◌, List, [], ◌∷◌, leb, ◌==◌, Text, codes, text_eq,
}

pub data Token : Type 0 where
  start : Text → List (Text × Text) → Token
  end : Text → Token
  chars : Text → Token
  other : Token
  bad : Token

pub record File : Type 0 where
  pub size : ℕ
  pub tokens : List Token

pub data Entry : Type 0 where
  absent : Entry
  irregular : Entry
  file : File → Entry

pub record Dir : Type 0 where
  pub config : Entry
  pub temporary : Entry
  pub backup : Entry
  pub certificate : Entry
  pub key : Entry

abbrev pub max_config_bytes : ℕ
max_config_bytes = 8 * 1024 * 1024

-- The token loop of `ValidateXML`: one root, named `configuration`, complete.
scan_tokens : ℕ → ℕ → List Token → Bool
scan_tokens root_count depth [] = root_count == 1 && depth == 0
scan_tokens root_count depth (bad ∷ ts) = false
scan_tokens root_count zero (start name attrs ∷ ts) =
    text_eq name (codes "configuration") && scan_tokens (suc root_count) 1 ts
scan_tokens root_count (suc depth) (start name attrs ∷ ts) =
    scan_tokens root_count (suc (suc depth)) ts
scan_tokens root_count zero (end name ∷ ts) = false
scan_tokens root_count (suc depth) (end name ∷ ts) = scan_tokens root_count depth ts
scan_tokens root_count depth (chars s ∷ ts) = scan_tokens root_count depth ts
scan_tokens root_count depth (other ∷ ts) = scan_tokens root_count depth ts

unfoldable pub validate_xml : File → Bool
unfolding scan_tokens text_eq
validate_xml f = leb f.size max_config_bytes && scan_tokens 0 0 f.tokens

-- `inspectedFile`, without its path.
pub record Inspected : Type 0 where
  pub exists : Bool
  pub valid : Bool

abbrev pub is_present : Entry → Bool
is_present absent = false
is_present _ = true
