-- ===== src/Rest/Totals.antt =====
-- internal/syncthing/ui.go: the bounded numbers and words of a status.
use leaf_syncthing_pak.Base.{
  ℕ, ◌+◌, ◌-◌, ◌≤◌, ◌&&◌, ◌==◌, ltb, ◌≡◌, List, [], ◌∷◌, member, if◌then◌else◌, Text, codes, ℤ, pos,
  negsuc, arith,
}

-- `nonnegative` and `nonnegativeInt`.
unfoldable pub nonnegative : ℤ → ℕ
nonnegative (pos n) = n
nonnegative (negsuc n) = 0

abbrev pub maximum_bytes : ℕ
maximum_bytes = 9223372036854775807

abbrev pub maximum_items : ℕ
maximum_items = 1000000000

unfoldable pub bounded_byte_total : ℕ → ℤ → ℕ
bounded_byte_total left (pos right) =
    if ltb (maximum_bytes - right) left then maximum_bytes else left + right
bounded_byte_total left (negsuc n) = left

-- The loop of `boundedItemTotal`.
unfoldable pub add_items : ℕ → List ℤ → ℕ
unfolding nonnegative
add_items total [] = total
add_items total (value ∷ values) =
    let rest = add_items (total + nonnegative value) values in
    if ltb (maximum_items - total) (nonnegative value) then maximum_items else rest

unfoldable pub bounded_item_total : List ℤ → ℕ
unfolding add_items
bounded_item_total values = add_items 0 values

abbrev folder_states : List Text
folder_states =
    codes "idle"
    ∷ codes "scanning"
    ∷ codes "scan-waiting"
    ∷ codes "sync-waiting"
    ∷ codes "sync-preparing"
    ∷ codes "syncing"
    ∷ codes "cleaning"
    ∷ codes "clean-waiting"
    ∷ codes "error"
    ∷ codes "unknown"
    ∷ codes "paused"
    ∷ []

unfoldable pub bounded_state : Text → Text
bounded_state value = if member value folder_states then value else codes "unknown"

-- A total is nothing only if its parts are.
pub bounded_byte_total-zero :
    (left right : ℕ) → (bounded_byte_total left (pos right) == 0) ≡ (left == 0 && right == 0)
unfolding bounded_byte_total
bounded_byte_total-zero left right = ground arith

pub bounded_item_total-zero :
    (left right : ℤ)
    → (bounded_item_total (left ∷ right ∷ []) == 0)
      ≡ (nonnegative left == 0 && nonnegative right == 0)
unfolding bounded_item_total add_items nonnegative
bounded_item_total-zero left right = ground arith

-- No total passes its bound.
add_items-bound :
    (total : ℕ) (values : List ℤ) → total ≤ maximum_items → add_items total values ≤ maximum_items
unfolding add_items
add_items-bound total [] h = h
add_items-bound total (value ∷ values) h =
    ground (arith, add_items-bound (total + nonnegative value) values)

pub bounded_item_total-bound : (values : List ℤ) → bounded_item_total values ≤ maximum_items
unfolding bounded_item_total
bounded_item_total-bound values = add_items-bound 0 values (omega arith)

pub bounded_byte_total-bound :
    (left right : ℕ)
    → left ≤ maximum_bytes
    → right ≤ maximum_bytes
    → bounded_byte_total left (pos right) ≤ maximum_bytes
unfolding bounded_byte_total
bounded_byte_total-bound left right h k = ground arith
