-- ===== src/Rest/Game/Added.antt =====
-- What one reply adds to the totals of a game check.
use leaf_syncthing_pak.Base.{
  ℕ, Bool, true, false, not, ◌&&◌, ◌==◌, ◌≡◌, refl, [], ◌∷◌, member, Text, codes, text_eq,
  text_eq_iff, ℤ, pos, arith, if◌then◌else◌,
}
use leaf_syncthing_pak.Rest.Replies.{Reply, got, lost, ◌>>=◌, UiDbStatus, UiCompletion}
use leaf_syncthing_pak.Rest.Totals.{
  nonnegative, bounded_item_total, bounded_state, bounded_item_total-zero, bounded_byte_total-zero,
}
use leaf_syncthing_pak.Rest.Game.{
  Pending, add_pending, add_completion, add_waiting, refused_states, add_local, nothing_pending,
}

abbrev none_of : ℤ → Bool
none_of n = nonnegative n == 0

-- A peer that lacks nothing of a folder.
unfoldable pub completion_done : UiCompletion → Bool
completion_done c =
    text_eq c.remote_state (codes "valid")
    && none_of c.need_bytes
    && none_of c.need_items
    && none_of c.need_deletes

-- A database that lacks nothing and does nothing.
unfoldable pub local_done : UiDbStatus → Bool
local_done local =
    none_of local.errors
    && none_of local.pull_errors
    && text_eq local.state (codes "idle")
    && none_of local.need_total_items
    && none_of local.need_bytes

abbrev pub reply_is {ℓ} : {A : Type ℓ} → (A → Bool) → Reply A → Bool
reply_is p (got a) = p a
reply_is p (lost e) = false

add_pending-nothing :
    (items bytes : ℕ) (p : Pending)
    → nothing_pending (add_pending items bytes p)
      ≡ (nothing_pending p && (items == 0 && bytes == 0))
unfolding add_pending nonnegative
add_pending-nothing items bytes p = ground (
  arith,
  bounded_item_total-zero (pos p.items) (pos items),
  bounded_byte_total-zero p.bytes bytes,
)

unknown_invalid :
    (s : Text) → text_eq s (codes "unknown") ≡ true → text_eq s (codes "valid") ≡ false
unfolding text_eq
unknown_invalid s h = rw ((text_eq_iff s (codes "unknown")).0 h) refl

pub add_completion-nothing :
    (c : UiCompletion) (p : Pending)
    → reply_is nothing_pending (add_completion c p) ≡ (nothing_pending p && completion_done c)
unfolding add_completion completion_done
add_completion-nothing c p =
    let items = bounded_item_total (c.need_items ∷ c.need_deletes ∷ []) in
    let bytes = nonnegative c.need_bytes in
    ground (
      arith,
      unknown_invalid c.remote_state,
      add_pending-nothing items bytes p,
      add_pending-nothing (if bytes == 0 && items == 0 then 1 else items) bytes p,
      bounded_item_total-zero c.need_items c.need_deletes,
    )

-- A folder with work pending that the totals do not show.
abbrev pub hidden : Pending → Bool
hidden p = p.folder_pending && nothing_pending p

add_pending-hidden :
    (items bytes : ℕ) (p : Pending) → hidden p ≡ false → hidden (add_pending items bytes p) ≡ false
unfolding add_pending nonnegative
add_pending-hidden items bytes p h = ground (
  arith,
  bounded_item_total-zero (pos p.items) (pos items),
  bounded_byte_total-zero p.bytes bytes,
)

pub add_completion-hidden :
    (c : UiCompletion) (p : Pending)
    → hidden p ≡ false
    → reply_is hidden (add_completion c p) ≡ false
unfolding add_completion
add_completion-hidden c p h =
    let items = bounded_item_total (c.need_items ∷ c.need_deletes ∷ []) in
    let bytes = nonnegative c.need_bytes in
    ground (
      arith,
      add_pending-hidden items bytes p h,
      add_pending-hidden (if bytes == 0 && items == 0 then 1 else items) bytes p h,
    )

pub add_waiting-nothing : (p : Pending) → nothing_pending (add_waiting p) ≡ false
unfolding add_waiting nonnegative
add_waiting-nothing p = ground (arith, bounded_item_total-zero (pos p.items) (pos 1))

pub add_local-nothing :
    (local : UiDbStatus) (p : Pending)
    → reply_is nothing_pending (add_local local p) ≡ (
        nothing_pending p
        && none_of local.errors
        && none_of local.pull_errors
        && not (member (bounded_state local.state) refused_states)
        && none_of local.need_total_items
        && none_of local.need_bytes)
unfolding add_local
add_local-nothing local p = ground (
  arith,
  add_pending-nothing (nonnegative local.need_total_items) (nonnegative local.need_bytes)
      (record p { folder_pending = false }),
)

pub add_local-hidden :
    (local : UiDbStatus) (p : Pending) → reply_is hidden (add_local local p) ≡ false
unfolding add_local
add_local-hidden local p = ground (
  arith,
  add_pending-hidden (nonnegative local.need_total_items) (nonnegative local.need_bytes)
      (record p { folder_pending = false }) refl,
)

-- What a test of the second reply says of both.
pub next-test :
    {A B : Type 0} (p : A → Bool) (q : B → Bool) (r : Reply A) (k : A → Reply B) (more : Bool)
    → ((a : A) → reply_is q (k a) ≡ (p a && more))
    → reply_is q (r >>= k) ≡ (reply_is p r && more)
unfolding ◌>>=◌
next-test p q (got a) k more h = h a
next-test p q (lost e) k more h = refl

pub next-fails :
    {A B : Type 0} (p : A → Bool) (q : B → Bool) (r : Reply A) (k : A → Reply B)
    → ((a : A) → p a ≡ false → reply_is q (k a) ≡ false)
    → reply_is p r ≡ false
    → reply_is q (r >>= k) ≡ false
unfolding ◌>>=◌
next-fails p q (got a) k h e = h a e
next-fails p q (lost b) k h e = refl

unknown_busy : text_eq (codes "unknown") (codes "idle") ≡ false
unfolding text_eq
unknown_busy = refl

idle_state : (s : Text) → text_eq s (codes "idle") ≡ true → bounded_state s ≡ codes "idle"
unfolding bounded_state text_eq
idle_state s h = rw ((text_eq_iff s (codes "idle")).0 h) refl

bounded_idle : (s : Text) → text_eq (bounded_state s) (codes "idle") ≡ text_eq s (codes "idle")
unfolding bounded_state
bounded_idle s = ground (arith, idle_state s, unknown_busy)

idle_allowed :
    (s : Text) → text_eq s (codes "idle") ≡ true → member (bounded_state s) refused_states ≡ false
unfolding text_eq
idle_allowed s h = rw (idle_state s h) refl

pub local_done-state :
    (local : UiDbStatus)
    → local_done local ≡ (
        (none_of local.errors
          && none_of local.pull_errors
          && not (member (bounded_state local.state) refused_states)
          && none_of local.need_total_items
          && none_of local.need_bytes)
        && text_eq (bounded_state local.state) (codes "idle"))
unfolding local_done
local_done-state local = ground (arith, bounded_idle local.state, idle_allowed local.state)
