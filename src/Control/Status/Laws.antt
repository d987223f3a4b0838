-- ===== src/Control/Status/Laws.antt =====
-- `normalize` is idempotent.
use leaf_syncthing_pak.Base.{◌≡◌, refl, Option, none, some, List, [], ◌∷◌, map}
use leaf_syncthing_pak.Control.Status.{
  NetworkStatus, Status, items, normalize_network, normalize_card, normalize_folder, normalize,
}

map_idem :
    {A : Type 0} (f : A → A) (xs : List A) → ((x : A) → f (f x) ≡ f x) → map f (map f xs) ≡ map f xs
map_idem f [] h = refl
map_idem f (x ∷ xs) h = rw (h x, map_idem f xs h) refl

normalize_network_idem :
    (n : Option NetworkStatus) → normalize_network (normalize_network n) ≡ normalize_network n
normalize_network_idem none = refl
normalize_network_idem (some n) = refl

-- A second normalisation changes nothing.
pub normalize_idem : (s : Status) → normalize (normalize s) ≡ normalize s
unfolding normalize
normalize_idem s =
    rw
      (
        normalize_network_idem s.network,
        map_idem normalize_card (items s.cards) (λ c. refl),
        map_idem normalize_folder (items s.folders) (λ f. refl),
      )
      refl
