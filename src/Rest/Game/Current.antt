-- ===== src/Rest/Game/Current.antt =====
-- What a game check's status says of the folders.
use leaf_syncthing_pak.Base.{
  Bool, true, false, not, ◌&&◌, ◌≡◌, refl, List, [], ◌∷◌, all, member, Text, codes, text_eq, arith,
  if◌then◌else◌,
}
use leaf_syncthing_pak.Folders.Types.{ConfiguredFolder}
use leaf_syncthing_pak.Rest.Replies.{Reply, got, lost, ◌>>=◌, UiDbStatus, UiCompletion, Responses}
use leaf_syncthing_pak.Rest.Totals.{bounded_state}
use leaf_syncthing_pak.Rest.Game.{
  peers_of, Pending, add_completion, add_waiting, add_local, add_peer, add_peers, check_activity,
  add_read, add_reads, nothing_pending,
}
use leaf_syncthing_pak.Rest.Game.Added.{
  completion_done, local_done, reply_is, add_completion-nothing, hidden, add_completion-hidden,
  add_waiting-nothing, add_local-nothing, add_local-hidden, next-test, next-fails, local_done-state,
}

module _ (rest : Responses) (self : Text) (waiting : List Text) where
  unfoldable pub peer_done : Text → Text → Bool
  peer_done folder_id id =
      not (member id waiting) && reply_is completion_done (rest.completion id folder_id)

  add_peer-nothing :
      (folder_id id : Text) (p : Pending)
      → reply_is nothing_pending (add_peer rest self waiting folder_id id p)
        ≡ (nothing_pending p && peer_done folder_id id)
  unfolding add_peer peer_done ◌>>=◌
  add_peer-nothing folder_id id p = go (member id waiting) (rest.completion id folder_id)
    where
      go :
          (m : Bool) (r : Reply UiCompletion)
          → reply_is nothing_pending
              (if m then got (add_waiting p) else (r >>= λ completion. add_completion completion p))
            ≡ (nothing_pending p && (not m && reply_is completion_done r))
      go true r = ground (arith, add_waiting-nothing p)
      go false (got c) = add_completion-nothing c p
      go false (lost e) = ground arith

  add_peer-hidden :
      (folder_id id : Text) (p : Pending)
      → hidden p ≡ false
      → reply_is hidden (add_peer rest self waiting folder_id id p) ≡ false
  unfolding add_peer ◌>>=◌
  add_peer-hidden folder_id id p h = go (member id waiting) (rest.completion id folder_id)
    where
      go :
          (m : Bool) (r : Reply UiCompletion)
          → reply_is hidden
              (if m then got (add_waiting p) else (r >>= λ completion. add_completion completion p))
            ≡ false
      go true r = ground (arith, add_waiting-nothing p)
      go false (got c) = add_completion-hidden c p h
      go false (lost e) = refl

  add_peers-nothing :
      (folder_id : Text) (ids : List Text) (p : Pending)
      → reply_is nothing_pending (add_peers rest self waiting folder_id ids p)
        ≡ (nothing_pending p && all (peer_done folder_id) ids)
  unfolding add_peers
  add_peers-nothing folder_id [] p = ground arith
  add_peers-nothing folder_id (id ∷ ids) p = ground (
    arith,
    add_peer-nothing folder_id id p,
    next-test nothing_pending nothing_pending (add_peer rest self waiting folder_id id p)
        (add_peers rest self waiting folder_id ids) (all (peer_done folder_id) ids)
        (add_peers-nothing folder_id ids),
  )

  add_peers-hidden :
      (folder_id : Text) (ids : List Text) (p : Pending)
      → hidden p ≡ false
      → reply_is hidden (add_peers rest self waiting folder_id ids p) ≡ false
  unfolding add_peers
  add_peers-hidden folder_id [] p h = h
  add_peers-hidden folder_id (id ∷ ids) p h =
      next-fails hidden hidden (add_peer rest self waiting folder_id id p)
        (add_peers rest self waiting folder_id ids) (add_peers-hidden folder_id ids)
        (add_peer-hidden folder_id id p h)

  check_activity-nothing :
      (state : Text) (r : Reply Pending)
      → reply_is hidden r ≡ false
      → reply_is nothing_pending (r >>= check_activity rest self waiting state)
        ≡ (reply_is nothing_pending r && text_eq (bounded_state state) (codes "idle"))
  unfolding check_activity ◌>>=◌
  check_activity-nothing state (got p) h = ground arith
  check_activity-nothing state (lost e) h = refl

  unfoldable pub folder_done : ConfiguredFolder → Bool
  folder_done folder =
      reply_is local_done (rest.status folder.id)
      && all (peer_done folder.id) (peers_of self folder)

  add_read-nothing :
      (folder : ConfiguredFolder) (p : Pending)
      → reply_is nothing_pending (add_read rest self waiting folder p)
        ≡ (nothing_pending p && folder_done folder)
  unfolding add_read folder_done ◌>>=◌
  add_read-nothing folder p = go (rest.status folder.id)
    where
      peers : Bool
      peers = all (peer_done folder.id) (peers_of self folder)

      after_local :
          (local : UiDbStatus) (r : Reply Pending)
          → reply_is hidden r ≡ false
          → reply_is nothing_pending (
              r >>= λ p₁.
              add_peers rest self waiting folder.id (peers_of self folder) p₁
              >>= check_activity rest self waiting local.state)
            ≡ (reply_is nothing_pending r
                && (peers && text_eq (bounded_state local.state) (codes "idle")))
      after_local local (got q) h = ground (
        arith,
        add_peers-nothing folder.id (peers_of self folder) q,
        check_activity-nothing local.state
            (add_peers rest self waiting folder.id (peers_of self folder) q)
            (add_peers-hidden folder.id (peers_of self folder) q h),
      )
      after_local local (lost e) h = refl

      go :
          (r : Reply UiDbStatus)
          → reply_is nothing_pending (
              r >>= λ local. add_local local p >>= λ p₁.
              add_peers rest self waiting folder.id (peers_of self folder) p₁
              >>= check_activity rest self waiting local.state)
            ≡ (nothing_pending p && (reply_is local_done r && peers))
      go (got local) = ground (
        arith,
        after_local local (add_local local p) (add_local-hidden local p),
        add_local-nothing local p,
        local_done-state local,
      )
      go (lost e) = ground arith

  pub add_reads-nothing :
      (folders : List ConfiguredFolder) (p : Pending)
      → reply_is nothing_pending (add_reads rest self waiting folders p)
        ≡ (nothing_pending p && all folder_done folders)
  unfolding add_reads
  add_reads-nothing [] p = ground arith
  add_reads-nothing (folder ∷ folders) p = ground (
    arith,
    add_read-nothing folder p,
    next-test nothing_pending nothing_pending (add_read rest self waiting folder p)
        (add_reads rest self waiting folders) (all folder_done folders) (add_reads-nothing folders),
  )
