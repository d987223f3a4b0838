-- ===== src/Gateway/Routes/Guarded.antt =====
-- What reaches Syncthing through the gateway.
use leaf_syncthing_pak.Base.{
  ℕ, true, false, ◌≡◌, ◌⊎◌, inl, inr, Option, none, some, List, [], ◌∷◌, any, Text, codes, text_eq,
  is_empty, arith, Option-cases,
}
use leaf_syncthing_pak.Gateway.Trust.Laws.{InForce, Some, authenticate-InForce}
use leaf_syncthing_pak.Gateway.Manager.{Manager}
use leaf_syncthing_pak.Gateway.Urls.{
  Url, Values, allow_proxy_url, static_paths, exact_no_query, member,
}
use leaf_syncthing_pak.Gateway.Routes.{
  Request, Environment, forwarded, is_read, carries_body, authenticated, serve_control, serve_http,
}

-- The paths of the view: the static files and the reads of the REST interface.
abbrev pub view_paths : List Text
view_paths =
    codes "/rest/events"
    ∷ codes "/rest/events/disk"
    ∷ codes "/rest/db/status"
    ∷ codes "/rest/db/completion"
    ∷ []

abbrev pub InView : Text → Type 0
InView path =
    (member path static_paths ≡ true)
    ⊎ ((member path exact_no_query ≡ true) ⊎ (any (text_eq path) view_paths ≡ true))

-- The cookie of a request is a token whose record is in force.
abbrev pub Trusted : (Text → Text) → ℕ → Option Text → Manager → Type 0
Trusted hash_of now none m = ⊥
Trusted hash_of now (some cookie) m =
    (is_empty cookie ≡ false) × Some (InForce now (hash_of cookie)) m.trust.records

module _ (hash_of : Text → Text) (query_of : Text → Values) where
  allow_proxy_url-InView : (u : Url) → allow_proxy_url query_of u ≡ true → InView u.path
  unfolding allow_proxy_url
  allow_proxy_url-InView u h = ground arith

  authenticated-Trusted :
      (env : Environment) (r : Request) (m : Manager)
      → (authenticated hash_of env r m).1 ≡ true
      → Trusted hash_of env.now r.control.cookie m
  unfolding authenticated
  authenticated-Trusted env r m h = elim (Option-cases r.control.cookie) [
    | inl e ↦ absurd (ground arith)
    | inr (cookie, e) ↦
        rw e (authenticate-InForce hash_of env.stored env.now cookie m.trust (ground arith))
  ]

  serve_control-not_forwarded :
      (env : Environment) (r : Request) (m : Manager)
      → (serve_control hash_of env r m).1 ≡ forwarded
      → ⊥
  unfolding serve_control
  serve_control-not_forwarded env r m h = ground arith

  -- A request reaches Syncthing only where its cookie is a token with a record that is in force,
  -- its method is GET or HEAD, it has no body and no method override, and its path is one of the
  -- view's.
  pub serve_http-forwarded :
      (env : Environment) (r : Request) (m : Manager)
      → (serve_http hash_of query_of env r m).1 ≡ forwarded
      → Trusted hash_of env.now r.control.cookie m
        × (is_read r.method ≡ true)
        × (carries_body r ≡ false)
        × InView r.url.path
  unfolding serve_http
  serve_http-forwarded env r m h =
      let control = serve_control-not_forwarded env r m in
      (
        authenticated-Trusted env r m (ground (arith, control)),
        ground (arith, control),
        ground (arith, control),
        allow_proxy_url-InView r.url (ground (arith, control)),
      )
