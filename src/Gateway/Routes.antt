-- ===== src/Gateway/Routes.antt =====
-- internal/gateway/gateway.go: `ServeHTTP` and the control paths under /leaf/.
pub mod Guarded
use leaf_syncthing_pak.Base.{
  ℕ, Bool, true, false, not, ◌&&◌, ◌||◌, Option, none, some, List, [], ◌∷◌, any, ltb, if◌then◌else◌,
  Text, codes, text_eq, is_empty, Dict, lookup,
}
use leaf_syncthing_pak.Gateway.Trust.{authenticate}
use leaf_syncthing_pak.Gateway.Manager.{Manager, set_trust}
use leaf_syncthing_pak.Gateway.Manager.Pairing.{ControlRequest, Reply, submit_pairing, logout}
use leaf_syncthing_pak.Gateway.Urls.{Url, Values, has_prefix, allow_proxy_url}

pub data Method : Type 0 where
  get head post other : Method

-- A request. `content_length` is `none` where Go has -1, and `headers` are the first values of the
-- headers by their names.
pub record Request : Type 0 where
  pub method : Method
  pub url : Url
  pub content_length : Option ℕ
  pub transfer_encoding : List Text
  pub headers : Dict Text
  pub control : ControlRequest

-- What is answered: the bootstrap page, a control reply, a refusal, or what Syncthing answers.
pub data Answer : Type 0 where
  bootstrap method_rejected not_found unpaired body_refused path_refused forwarded : Answer
  replied : Reply → Answer

abbrev pub is_read : Method → Bool
is_read get = true
is_read head = true
is_read _ = false

abbrev is_post : Method → Bool
is_post post = true
is_post _ = false

abbrev override_names : List Text
override_names =
    codes "X-HTTP-Method-Override" ∷ codes "X-Method-Override" ∷ codes "X-HTTP-Method" ∷ []

abbrev has_value : Option Text → Bool
has_value none = false
has_value (some v) = not (is_empty v)

unfoldable pub has_method_override : Dict Text → Bool
has_method_override headers = any (λ name. has_value (lookup name headers)) override_names

abbrev has_length : Option ℕ → Bool
has_length none = false
has_length (some n) = ltb 0 n

abbrev pub has_items : List Text → Bool
has_items [] = false
has_items _ = true

unfoldable pub carries_body : Request → Bool
carries_body r =
    has_length r.content_length || has_items r.transfer_encoding || has_method_override r.headers

-- The environment of a handler: whether each write of the trust file succeeded, the time, and the
-- secret that was drawn.
pub record Environment : Type 0 where
  pub stored : Bool
  pub stored' : Bool
  pub now : ℕ
  pub fresh : Option Text

module _ (hash_of : Text → Text) where
  -- `Manager.authenticated`.
  unfoldable pub authenticated : Environment → Request → Manager → Manager × Bool
  authenticated env r m = elim r.control.cookie [
    | none ↦ (m, false)
    | some cookie ↦
        let (t, trusted) = authenticate hash_of env.stored env.now cookie m.trust in
        (set_trust t m, trusted)
  ]

  unfoldable pub serve_control : Environment → Request → Manager → Manager × Answer
  unfolding text_eq
  serve_control env r m =
      let (paired, pair_reply) = submit_pairing hash_of env.stored env.now env.fresh r.control m in
      let (left, logout_reply) = logout hash_of env.stored env.stored' env.now r.control m in
      let fallen = if not (is_read r.method) then method_rejected else not_found in
      if text_eq r.url.path (codes "/leaf/pair")
      then if is_read r.method
        then (m, bootstrap)
        else if is_post r.method
        then (paired, replied pair_reply)
        else (m, fallen)
      else if text_eq r.url.path (codes "/leaf/logout") && is_post r.method
      then (left, replied logout_reply)
      else (m, fallen)

  -- `query_of` is `url.URL.Query`.
  unfoldable pub serve_http :
      (query_of : Text → Values) → Environment → Request → Manager → Manager × Answer
  serve_http query_of env r m =
      let (n, trusted) = authenticated env r m in
      if has_prefix (codes "/leaf/") r.url.path
      then serve_control env r m
      else if not trusted
      then (n, unpaired)
      else if not (is_read r.method)
      then (n, method_rejected)
      else if carries_body r
      then (n, body_refused)
      else if not (allow_proxy_url query_of r.url)
      then (n, path_refused)
      else (n, forwarded)
