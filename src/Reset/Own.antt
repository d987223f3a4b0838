-- ===== src/Reset/Own.antt =====
-- The paths that an accepted reset document may name.
use leaf_syncthing_pak.Base.{
  true, false, ◌||◌, ◌≡◌, refl, ◌⊎◌, inl, inr, some, List, [], ◌∷◌, ◌++◌, map, member, All,
  All-both, All-insert, All-lookup, codes, Text, text_eq, Dict, lookup, insert, arith, Bool-cases,
  Option-cases,
}
use leaf_syncthing_pak.Folders.Types.{Source}
use leaf_syncthing_pak.Reset.Documents.{
  ResetRoot, ResetCard, ResetDocument, Config, Filepath, index_only, index_directory, without,
  live_content_path, card_roots, primary_roots, state_path, index_paths, sources_by_id, known_card,
  card_paths, all_card_roots, exact_reset_paths, valid_root, valid_roots, valid_reset_document,
}

member-append : (x : Text) (xs ys : List Text) → member x (xs ++ ys) ≡ (member x xs || member x ys)
member-append x [] ys = refl
member-append x (y ∷ xs) ys = ground (arith, member-append x xs ys)

module _ (fp : Filepath) where
  -- The card roots of a source are among the given paths.
  Covers : List Text → Source → Type 0
  Covers paths source =
      (x : Text) → member x (card_roots fp source.userdata_path) ≡ true → member x paths ≡ true

  sources-Covers :
      (paths : List Text) (sources : List Source)
      → ((x : Text) → member x (all_card_roots fp sources) ≡ true → member x paths ≡ true)
      → All (Covers paths) sources
  unfolding Covers
  sources-Covers paths [] h = tt
  sources-Covers paths (source ∷ sources) h = (
    λ x m. h x (
        ground (
          arith,
          member-append x (card_roots fp source.userdata_path) (all_card_roots fp sources),
        )),
    sources-Covers paths sources (λ x m. h x (
        ground (
          arith,
          member-append x (card_roots fp source.userdata_path) (all_card_roots fp sources),
        ))),
  )

  sources_by_id-Covers :
      (paths : List Text) (sources : List Source) (result : Dict Source)
      → All (Covers paths) sources
      → All (λ e. Covers paths e.1) result
      → All (λ e. Covers paths e.1) (sources_by_id fp sources result)
  unfolding sources_by_id
  sources_by_id-Covers paths [] result h r = r
  sources_by_id-Covers paths (source ∷ sources) result (p, h) r =
      sources_by_id-Covers paths sources (insert source.id source result) h
        (All-insert (λ e. Covers paths e.1) source.id source result p r)

  card_paths-Covers :
      (paths : List Text) (sources : Dict Source) (cards : List ResetCard)
      (seen allowed retained : List Text) (a r : List Text)
      → All (λ e. Covers paths e.1) sources
      → ((x : Text) → member x allowed ≡ true → member x paths ≡ true)
      → card_paths fp sources cards seen allowed retained ≡ some (a, r)
      → (x : Text) → member x a ≡ true
      → member x paths ≡ true
  unfolding card_paths known_card Covers
  card_paths-Covers paths sources [] seen allowed retained a r s h e x m = h x (ground arith)
  card_paths-Covers paths sources (card ∷ cards) seen allowed retained a r s h e x m =
      elim (Option-cases (lookup card.source_id sources)) [
        | inl n ↦ absurd (ground arith)
        | inr (source, f) ↦
            let within = All-lookup (λ e. Covers paths e.1) card.source_id source sources s f in
            card_paths-Covers paths sources cards (card.id ∷ seen)
              (state_path fp source.userdata_path (codes "snapshots")
                ∷ state_path fp source.userdata_path (codes "versions")
                ∷ allowed)
              (without (state_path fp source.userdata_path (codes "versions"))
                (without (state_path fp source.userdata_path (codes "snapshots")) retained))
              a r s (λ y k. ground (arith, within y, h y)) (let e' = rw f at e in ground arith) x m
      ]

  index_paths-IsIndex :
      (config : Config) (roots : List ResetRoot) (paths : List Text)
      → index_paths fp config roots ≡ some paths
      → All
          (λ root.
            (text_eq (fp.clean (fp.dir root.path)) (fp.clean config.data_dir) ≡ true)
            × (index_directory (fp.base root.path) ≡ true))
          roots
  unfolding index_paths
  index_paths-IsIndex config [] paths h = tt
  index_paths-IsIndex config (root ∷ roots) paths h =
      elim (Option-cases (index_paths fp config roots)) [
        | inl n ↦ absurd (ground arith)
        | inr (rest, e) ↦ ((ground arith, ground arith), index_paths-IsIndex config roots rest e)
      ]

  valid_roots-each :
      (config : Config) (allowed seen : List Text) (roots : List ResetRoot)
      → valid_roots fp config allowed seen roots ≡ true
      → All
          (λ root.
            (live_content_path fp config.sources root.path ≡ false)
            × (member (fp.clean root.path) allowed ≡ true))
          roots
  unfolding valid_roots valid_root
  valid_roots-each config allowed seen [] h = tt
  valid_roots-each config allowed seen (root ∷ roots) h = (
    (ground arith, ground arith),
    valid_roots-each config allowed (root.path ∷ seen) roots (ground arith),
  )

  -- The paths that a reset of more than the index may remove: the device's own state and, on each
  -- card, the snapshots and the versions.
  abbrev pub own_paths : Config → List Text
  own_paths config =
      map (λ root. fp.clean root.0) (primary_roots fp config) ++ all_card_roots fp config.sources

  -- The paths that an accepted reset of the index names are index directories of the database.
  abbrev pub IsOwn : Config → ResetDocument → ResetRoot → Type 0
  IsOwn config d root =
      (live_content_path fp config.sources root.path ≡ false)
      × (((text_eq d.action index_only ≡ true)
            × (text_eq (fp.clean (fp.dir root.path)) (fp.clean config.data_dir) ≡ true)
            × (index_directory (fp.base root.path) ≡ true))
          ⊎ ((text_eq d.action index_only ≡ false)
              × (member (fp.clean root.path) (own_paths config) ≡ true)))

  exact_reset_paths-cases :
      (config : Config) (d : ResetDocument) (a r : List Text)
      → exact_reset_paths fp config d ≡ some (a, r)
      → ((text_eq d.action index_only ≡ true)
          × ((paths : List Text) × (index_paths fp config d.roots ≡ some paths)))
        ⊎ ((text_eq d.action index_only ≡ false)
            × (card_paths fp
                  (sources_by_id fp config.sources [])
                  d.required_cards
                  []
                  (map (λ root. fp.clean root.0) (primary_roots fp config))
                  (all_card_roots fp config.sources)
                ≡ some (a, r)))
  unfolding exact_reset_paths
  exact_reset_paths-cases config d a r h = elim (Bool-cases (text_eq d.action index_only)) [
    | inl i ↦ elim (Option-cases (index_paths fp config d.roots)) [
      | inl n ↦ absurd (ground arith)
      | inr (paths, e) ↦ inl (i, (paths, e))
    ]
    | inr i ↦ inr (i, ground arith)
  ]

  own_paths-from_cards :
      (config : Config) (d : ResetDocument) (a r : List Text)
      → card_paths fp
          (sources_by_id fp config.sources [])
          d.required_cards
          []
          (map (λ root. fp.clean root.0) (primary_roots fp config))
          (all_card_roots fp config.sources)
        ≡ some (a, r)
      → (x : Text) → member x a ≡ true
      → member x (own_paths config) ≡ true
  own_paths-from_cards config d a r e x m =
      let primary = map (λ root. fp.clean root.0) (primary_roots fp config) in
      let cards = all_card_roots fp config.sources in
      card_paths-Covers (own_paths config) (sources_by_id fp config.sources []) d.required_cards []
        primary cards a r
        (sources_by_id-Covers (own_paths config) config.sources []
          (sources-Covers (own_paths config) config.sources
            (λ y k. ground (arith, member-append y primary cards)))
          tt)
        (λ y k. ground (arith, member-append y primary cards)) e x m

  -- An accepted reset document names no directory of saves, states or roms of any source. A reset
  -- of the index names index directories of the database only, any other reset the paths of the
  -- device's own state and the snapshots and versions of cards only.
  pub valid_reset_document-IsOwn :
      (config : Config) (d : ResetDocument)
      → valid_reset_document fp config d ≡ true
      → All (IsOwn config d) d.roots
  unfolding valid_reset_document
  valid_reset_document-IsOwn config d h = elim (Option-cases (exact_reset_paths fp config d)) [
    | inl n ↦ absurd (ground arith)
    | inr (paths, e) ↦
        let each =
          valid_roots-each config paths.0 [] d.roots (let h' = rw e at h in ground arith) in
        elim (exact_reset_paths-cases config d paths.0 paths.1 e) [
          | inl (i, (found, f)) ↦
              All-both _ _ (IsOwn config d) d.roots (λ root (live, m) (p, q). (live, inl (i, p, q)))
                each (index_paths-IsIndex config d.roots found f)
          | inr (i, f) ↦
              All-both _ _ (IsOwn config d) d.roots
                (λ root (live, m) _.
                  (live, inr (i, own_paths-from_cards config d paths.0 paths.1 f _ m)))
                each each
        ]
  ]
