-- ===== src/Rest/Game/InSync.antt =====
-- A game check's status is current exactly when every folder is in sync with every peer.
use leaf_syncthing_pak.Base.{
  Bool, true, false, not, ◌&&◌, ◌||◌, ◌≡◌, refl, List, [], ◌∷◌, any, all, member, Text, text_eq_iff,
  text_eq_refl, Dict, lookup, arith, if◌then◌else◌,
}
use leaf_syncthing_pak.Folders.Types.{ConfiguredFolder}
use leaf_syncthing_pak.Rest.Replies.{
  Reply, got, lost, ◌>>=◌, UiDevice, UiConnection, Responses, next-got,
}
use leaf_syncthing_pak.Rest.Game.{
  GameCheckStatus, by_device_id, wrong, connected_by, device_accepted, peers_of, waiting_peers,
  waiting_of_folders, Pending, add_reads, no_pending, nothing_pending, as_status,
  read_game_check_status,
}
use leaf_syncthing_pak.Rest.Game.Added.{completion_done, local_done, reply_is, next-test}
use leaf_syncthing_pak.Rest.Game.Current.{peer_done, folder_done, add_reads-nothing}

abbrev replied : {A : Type 0} → A → Bool
replied a = true

module _ (devices : Dict UiDevice) (connections : Dict UiConnection) where
  abbrev accepted : Text → Bool
  accepted id = device_accepted (lookup id devices) (lookup id connections)

  abbrev connected : Text → Bool
  connected id = connected_by (lookup id connections)

  waiting_peers-accepted :
      (ids waiting : List Text)
      → reply_is replied (waiting_peers devices connections ids waiting) ≡ all accepted ids
  unfolding waiting_peers
  waiting_peers-accepted [] waiting = refl
  waiting_peers-accepted (id ∷ ids) waiting =
      let rest = waiting_peers-accepted ids (if connected id then waiting else id ∷ waiting) in
      ground arith

  waiting_peers-member :
      (x : Text) (ids waiting after : List Text)
      → waiting_peers devices connections ids waiting ≡ got after
      → member x after ≡ (member x waiting || (member x ids && not (connected x)))
  unfolding waiting_peers
  waiting_peers-member x [] waiting after h = ground arith
  waiting_peers-member x (id ∷ ids) waiting after h = ground (
    arith,
    text_eq_iff x id,
    waiting_peers-member x ids (if connected id then waiting else id ∷ waiting) after,
  )

  abbrev peers_accepted : Text → ConfiguredFolder → Bool
  peers_accepted self folder = all accepted (peers_of self folder)

  abbrev is_peer : Text → List ConfiguredFolder → Text → Bool
  is_peer self folders x = any (λ folder. member x (peers_of self folder)) folders

  waiting_of_folders-accepted :
      (self : Text) (folders : List ConfiguredFolder) (waiting : List Text)
      → reply_is replied (waiting_of_folders devices connections self folders waiting)
        ≡ all (peers_accepted self) folders
  unfolding waiting_of_folders ◌>>=◌
  waiting_of_folders-accepted self [] waiting = refl
  waiting_of_folders-accepted self (folder ∷ folders) waiting = ground (
    arith,
    waiting_peers-accepted (peers_of self folder) waiting,
    next-test replied replied (waiting_peers devices connections (peers_of self folder) waiting)
        (waiting_of_folders devices connections self folders) (all (peers_accepted self) folders)
        (waiting_of_folders-accepted self folders),
  )

  waiting_of_folders-member :
      (x self : Text) (folders : List ConfiguredFolder) (waiting after : List Text)
      → waiting_of_folders devices connections self folders waiting ≡ got after
      → member x after ≡ (member x waiting || (is_peer self folders x && not (connected x)))
  unfolding waiting_of_folders
  waiting_of_folders-member x self [] waiting after h = ground arith
  waiting_of_folders-member x self (folder ∷ folders) waiting after h =
      let (w, e, h') =
        next-got (waiting_peers devices connections (peers_of self folder) waiting)
          (waiting_of_folders devices connections self folders) after h in
      ground (
        arith,
        waiting_peers-member x (peers_of self folder) waiting w e,
        waiting_of_folders-member x self folders w after h',
      )

  module _ (rest : Responses) where
    unfoldable pub peer_in_sync : Text → Text → Bool
    peer_in_sync folder_id id =
        accepted id && connected id && reply_is completion_done (rest.completion id folder_id)

    unfoldable pub folder_in_sync : Text → ConfiguredFolder → Bool
    unfolding peer_in_sync
    folder_in_sync self folder =
        reply_is local_done (rest.status folder.id)
        && all (peer_in_sync folder.id) (peers_of self folder)

    peers_agree :
        (self folder_id : Text) (waiting ids : List Text)
        → ((x : Text) → member x ids ≡ true → member x waiting ≡ not (connected x))
        → (all accepted ids && all (peer_done rest self waiting folder_id) ids)
          ≡ all (peer_in_sync folder_id) ids
    unfolding peer_done peer_in_sync
    peers_agree self folder_id waiting [] h = refl
    peers_agree self folder_id waiting (id ∷ ids) h =
        let this = h id (ground (arith, text_eq_refl id)) in
        let more = peers_agree self folder_id waiting ids (λ x m. h x (ground arith)) in
        ground arith

    folders_agree :
        (self : Text) (waiting : List Text) (folders : List ConfiguredFolder)
        → ((x : Text) → is_peer self folders x ≡ true → member x waiting ≡ not (connected x))
        → (all (peers_accepted self) folders && all (folder_done rest self waiting) folders)
          ≡ all (folder_in_sync self) folders
    unfolding folder_done folder_in_sync
    folders_agree self waiting [] h = refl
    folders_agree self waiting (folder ∷ folders) h =
        let this =
          peers_agree self folder.id waiting (peers_of self folder) (λ x m. h x (ground arith)) in
        let more = folders_agree self waiting folders (λ x m. h x (ground arith)) in ground arith

    peers_in_sync-accepted :
        (folder_id : Text) (ids : List Text)
        → all (peer_in_sync folder_id) ids ≡ true
        → all accepted ids ≡ true
    unfolding peer_in_sync
    peers_in_sync-accepted folder_id [] h = refl
    peers_in_sync-accepted folder_id (id ∷ ids) h =
        ground (arith, peers_in_sync-accepted folder_id ids)

    folders_in_sync-accepted :
        (self : Text) (folders : List ConfiguredFolder)
        → all (folder_in_sync self) folders ≡ true
        → all (peers_accepted self) folders ≡ true
    unfolding folder_in_sync
    folders_in_sync-accepted self [] h = refl
    folders_in_sync-accepted self (folder ∷ folders) h = ground (
      arith,
      peers_in_sync-accepted folder.id (peers_of self folder),
      folders_in_sync-accepted self folders,
    )

status-nothing :
    (r : Reply Pending)
    → reply_is (λ status. status.current) (r >>= λ p. got (as_status p))
      ≡ reply_is nothing_pending r
unfolding ◌>>=◌
status-nothing (got p) = refl
status-nothing (lost b) = refl

-- The devices and the connections were read, no folder is paused, and each is in sync.
unfoldable pub all_in_sync : Responses → List ConfiguredFolder → Text → Bool
unfolding folder_in_sync
all_in_sync rest folders self =
    not (any (λ folder. folder.paused) folders)
    && reply_is
        (λ devices.
          reply_is
            (λ connections.
              all (folder_in_sync (by_device_id devices []) connections rest self) folders)
            rest.connections)
        rest.devices

abbrev pub is_current_status : GameCheckStatus → Bool
is_current_status status = status.current

totals_in_sync :
    (rest : Responses) (self : Text) (folders : List ConfiguredFolder) (devices : Dict UiDevice)
    (connections : Dict UiConnection)
    → reply_is is_current_status (
        waiting_of_folders devices connections self folders [] >>= λ waiting.
        add_reads rest self waiting folders no_pending >>= λ p. got (as_status p))
      ≡ all (folder_in_sync devices connections rest self) folders
unfolding ◌>>=◌
totals_in_sync rest self folders devices connections =
    go (waiting_of_folders devices connections self folders []) refl
      (waiting_of_folders-accepted devices connections self folders [])
  where
    go :
        (r : Reply (List Text))
        → waiting_of_folders devices connections self folders [] ≡ r
        → reply_is replied r ≡ all (peers_accepted devices connections self) folders
        → reply_is is_current_status (
            r >>= λ waiting.
            add_reads rest self waiting folders no_pending >>= λ p. got (as_status p))
          ≡ all (folder_in_sync devices connections rest self) folders
    go (got waiting) e a = ground (
      arith,
      status-nothing (add_reads rest self waiting folders no_pending),
      add_reads-nothing rest self waiting folders no_pending,
      folders_agree devices connections rest self waiting folders (λ x m.
          ground
            (arith, waiting_of_folders-member devices connections x self folders [] waiting e)),
    )
    go (lost b) e a = ground (arith, folders_in_sync-accepted devices connections rest self folders)

-- The status is current exactly when the devices and the connections could be read, no folder is
-- paused, and each folder is in sync: its database has no errors, is idle and needs nothing, and
-- every peer is configured, connected and not paused, shares the folder and needs nothing of it.
pub read_game_check_status-current :
    (rest : Responses) (folders : List ConfiguredFolder) (self : Text)
    → reply_is is_current_status (read_game_check_status rest folders self)
      ≡ all_in_sync rest folders self
unfolding read_game_check_status all_in_sync ◌>>=◌
read_game_check_status-current rest folders self =
    go (any (λ folder. folder.paused) folders) rest.devices rest.connections
  where
    go :
        (paused : Bool) (r : Reply (List UiDevice)) (c : Reply (Dict UiConnection))
        → reply_is is_current_status (
            if paused
            then wrong
            else (r >>= λ devices. c >>= λ connections.
                waiting_of_folders (by_device_id devices []) connections self folders []
                >>= λ waiting.
                    add_reads rest self waiting folders no_pending >>= λ p. got (as_status p)))
          ≡ (not paused
              && reply_is
                  (λ devices.
                    reply_is
                      (λ connections.
                        all
                          (folder_in_sync (by_device_id devices []) connections rest self)
                          folders)
                      c)
                  r)
    go true r c = refl
    go false (got devices) (got connections) =
        totals_in_sync rest self folders (by_device_id devices []) connections
    go false (got devices) (lost b) = refl
    go false (lost b) c = refl
