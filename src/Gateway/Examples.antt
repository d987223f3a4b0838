-- ===== src/Gateway/Examples.antt =====
-- The theorems on the gateway at concrete states and requests.
use leaf_syncthing_pak.Base.{
  ℕ, true, false, ◌≡◌, refl, inl, none, some, List, [], ◌∷◌, ◌+◌, All, is_empty, arith, Text, codes,
  text_eq, lookup,
}
use leaf_syncthing_pak.Gateway.Trust.{
  TrustStore, issue, authenticate, revoke, load, sort, sorted_in, touch, prune,
}
use leaf_syncthing_pak.Gateway.Trust.Laws.{InForce, Some, authenticate-InForce, authenticate-issue}
use leaf_syncthing_pak.Gateway.Trust.Revoked.{
  Step, restarted, tried, issued, take_steps, Spares, authenticate-revoke,
}
use leaf_syncthing_pak.Gateway.Manager.{PairingOffer, Instance, Manager}
use leaf_syncthing_pak.Gateway.Manager.Pairing.{
  ControlRequest, no_content, valid_control_request, recent, recent_by_source, prune_failures,
  matches, pair, submit_pairing,
}
use leaf_syncthing_pak.Gateway.Manager.OneUse.{BodyAnswers, submit_pairing-no_content}
use leaf_syncthing_pak.Gateway.Urls.{
  Url, Values, allow_proxy_url, static_paths, exact_no_query, member,
}
use leaf_syncthing_pak.Gateway.Routes.{
  Request, Method, Environment, forwarded, carries_body, has_method_override, authenticated,
  serve_http,
}
use leaf_syncthing_pak.Gateway.Routes.Guarded.{Trusted, InView, serve_http-forwarded}

abbrev same_hash : Text → Text
same_hash t = t

abbrev now_sample : ℕ
now_sample = 1000

abbrev sample_trust : TrustStore
sample_trust = record {
  records = record { hash = codes "cookie"; created = 900; last_used = 950 } ∷ [];
  saved = [];
}

abbrev saved_trust : TrustStore
saved_trust = record { records = sample_trust.records; saved = sample_trust.records }

abbrev sample_instance : Instance
sample_instance = record {
  host = codes "10.0.0.2:8443";
  addresses = codes "10.0.0.2" ∷ [];
  fingerprint = codes "f";
}

abbrev sample_offer : PairingOffer
sample_offer = record { pin = codes "1234"; token = codes "secret"; expires = 2000 }

abbrev sample_manager : Manager
sample_manager = record {
  trust = sample_trust;
  instance = some sample_instance;
  offer = some sample_offer;
  control_csrf = codes "c";
  foreground_deadline = some 3000;
  extension_expires = none;
  failed_by_source = [];
  failed_global = [];
  pairing_locked = false;
}

abbrev pin_request : ControlRequest
pin_request = record {
  host = codes "10.0.0.2:8443";
  csrf = codes "c";
  origin = codes "https://10.0.0.2:8443";
  referer = none;
  cookie = some (codes "cookie");
  body = some (codes "1234", []);
  source = codes "10.0.0.9";
}

accepted_cookie : (authenticate same_hash true now_sample (codes "cookie") sample_trust).1 ≡ true
unfolding authenticate touch prune text_eq
accepted_cookie = refl

authenticate-InForce_example :
    (is_empty (codes "cookie") ≡ false)
    × Some (InForce now_sample (codes "cookie")) sample_trust.records
authenticate-InForce_example =
    authenticate-InForce same_hash true now_sample (codes "cookie") sample_trust accepted_cookie

-- A restart, a try of the revoked token and the pairing of another browser.
abbrev later_steps : List Step
later_steps =
    restarted now_sample
    ∷ tried true now_sample (codes "cookie")
    ∷ issued true now_sample (some (codes "other"))
    ∷ restarted (now_sample + 10)
    ∷ []

later_steps-Spares : All (Spares same_hash (codes "cookie")) later_steps
unfolding text_eq
later_steps-Spares = (tt, (tt, (refl, (tt, tt))))

authenticate-revoke_example :
    (authenticate same_hash true
      (now_sample + 20)
      (codes "cookie")
      (take_steps same_hash later_steps (revoke same_hash true (codes "cookie") saved_trust).0)).1
    ≡ false
authenticate-revoke_example =
    authenticate-revoke same_hash true true (now_sample + 20) (codes "cookie") saved_trust
      later_steps later_steps-Spares (inl refl)

-- A revocation that was not written is lost at a restart: the token is accepted again.
unsaved_revocation :
    (authenticate same_hash true now_sample (codes "cookie") (
      take_steps same_hash
        (restarted now_sample ∷ [])
        (revoke same_hash false (codes "cookie") saved_trust).0)).1
    ≡ true
unfolding authenticate revoke load prune touch text_eq
unsaved_revocation = refl

authenticate-issue_example :
    (authenticate same_hash true now_sample
      (codes "t")
      (issue same_hash true now_sample (some (codes "t")) sample_trust).0).1
    ≡ true
authenticate-issue_example =
    authenticate-issue same_hash true true now_sample (codes "t") sample_trust refl
      (omega arith, tt)

sample_paired :
    (submit_pairing same_hash true now_sample (some (codes "t")) pin_request sample_manager).1
    ≡ no_content (codes "t")
unfolding submit_pairing pair prune_failures recent recent_by_source matches lookup
    valid_control_request issue prune sort sorted_in text_eq
sample_paired = refl

submit_pairing-no_content_example :
    (valid_control_request sample_manager pin_request ≡ true)
    × (false ≡ false)
    × BodyAnswers now_sample (some sample_offer) pin_request.body
    × ((submit_pairing same_hash true now_sample
          (some (codes "t"))
          pin_request
          sample_manager).0.offer
        ≡ none)
submit_pairing-no_content_example =
    submit_pairing-no_content same_hash true now_sample (some (codes "t")) pin_request (codes "t")
      sample_manager sample_paired

abbrev used_manager : Manager
used_manager = record sample_manager { offer = none }

abbrev status_url : Url
status_url = record {
  scheme = [];
  host = [];
  path = codes "/rest/system/status";
  raw_path = [];
  escaped_path = codes "/rest/system/status";
  raw_query = [];
  fragment = [];
}

abbrev status_request : Request
status_request = record {
  method = Method.get;
  url = status_url;
  content_length = some 0;
  transfer_encoding = [];
  headers = [];
  control = pin_request;
}

abbrev sample_environment : Environment
sample_environment = record { stored = true; stored' = true; now = now_sample; fresh = none }

abbrev no_values : Text → Values
no_values _ = []

sample_forwarded :
    (serve_http same_hash no_values sample_environment status_request sample_manager).1 ≡ forwarded
unfolding serve_http authenticated authenticate touch prune carries_body has_method_override
    allow_proxy_url member static_paths exact_no_query lookup text_eq
sample_forwarded = refl

serve_http-forwarded_example :
    Trusted same_hash now_sample (some (codes "cookie")) sample_manager
    × (true ≡ true)
    × (carries_body status_request ≡ false)
    × InView (codes "/rest/system/status")
serve_http-forwarded_example =
    serve_http-forwarded same_hash no_values sample_environment status_request sample_manager
      sample_forwarded
