-- ===== src/Control/Examples.antt =====
-- The theorems on the UI control protocol at a concrete request and status.
use leaf_syncthing_pak.Base.{
  ℕ, suc, Bool, true, ◌≡◌, refl, ap, ◌⊎◌, inr, Option, none, some, [], ◌∷◌, ◌++◌, Text, codes,
  text_eq, lookup, pos,
}
use leaf_syncthing_pak.Life1.Wire.{
  took, sent, read, write, write_all, encode, put_uint32, get_uint32,
}
use leaf_syncthing_pak.Control.Words.{folder_stop, operations, valid_identifier, one_of}
use leaf_syncthing_pak.Control.Arguments.{
  Request, Json, Call, folder_action, text_at, decode_confirmed_id,
}
use leaf_syncthing_pak.Control.Calls.{decode_call}
use leaf_syncthing_pak.Control.Status.{CardStatus, Status, normalize}
use leaf_syncthing_pak.Control.Validate.{
  validate, valid_states, valid_network, valid_gateway, valid_transfer, valid_logging,
  valid_onboarding, valid_storage, valid_recovery, valid_upstream, within_rows, valid_card,
}
use leaf_syncthing_pak.Control.Handlers.{handler_of}
use leaf_syncthing_pak.Control.Handle.{
  Operations, Response, success, handle, answer, dispatch, finish,
}
use leaf_syncthing_pak.Control.Handle.Sound.{Performed, handle-Performed, IsReport, handle-IsReport}
use leaf_syncthing_pak.Control.Server.{reply, exchange}

abbrev sample_request : Request
sample_request = record {
  version = pos 1;
  id = codes "r1";
  operation = codes "folder.stop";
  arguments = codes "{}";
}

-- A decoder that reads every text as the sample.
abbrev sample_json : Json
sample_json = record {
  request = λ t. some sample_request;
  strict = λ fields t. none;
  object = λ t. some ((codes "folder_id", codes "f1") ∷ (codes "confirmed", codes "true") ∷ []);
  text = λ t. some t;
  flag = λ t. some (text_eq t (codes "true"));
}

abbrev sample_card : CardStatus
sample_card = record {
  id = codes "c1";
  source_id = codes "s1";
  state = codes "enrolled";
  retained_bytes = pos 0;
  issues = none;
}

abbrev sample_status : Status
sample_status = record {
  controller = codes "running";
  upstream = record { state = codes "stopped"; version = []; device_id = [] };
  recovery = record {
    state = codes "ready";
    plan_id = [];
    plan_action = [];
    remove_paths = [];
    retained_paths = [];
  };
  network = none;
  gateway = none;
  transfer = none;
  logging_level = none;
  storage = none;
  onboarding = none;
  cards = some (sample_card ∷ []);
  folders = none;
  peers = [];
  folder_offers = [];
  issues = none;
  capabilities = none;
}

-- A controller that counts the folders it stopped.
abbrev sample_operations : Operations ℕ
sample_operations = record { offers = λ h. true; perform = λ call n. (suc n, inr sample_status) }

abbrev sample_call : Call
sample_call = folder_action folder_stop (codes "f1") []

sample_decoded : decode_call sample_json folder_stop (codes "{}") ≡ some sample_call
unfolding decode_call decode_confirmed_id text_at lookup text_eq valid_identifier
sample_decoded = refl

handle-Performed_example :
    ((handle sample_json sample_operations (codes "{}") 4).0 ≡ 4)
    ⊎ Performed sample_json sample_operations
        (codes "{}")
        4
        (handle sample_json sample_operations (codes "{}") 4).0
handle-Performed_example = handle-Performed sample_json sample_operations (codes "{}") 4

sample_handled :
    handle sample_json sample_operations (codes "{}") 4
    ≡ (5, success (codes "r1") (normalize sample_status))
unfolding handle answer dispatch finish decode_call decode_confirmed_id text_at lookup text_eq
    valid_identifier operations handler_of normalize validate valid_states valid_network
    valid_gateway valid_transfer valid_logging valid_onboarding valid_storage valid_recovery
    valid_upstream within_rows valid_card one_of
sample_handled = refl

handle-IsReport_example : IsReport (codes "r1") (normalize sample_status)
handle-IsReport_example =
    handle-IsReport sample_json sample_operations (codes "{}") 4 (codes "r1")
      (normalize sample_status) (ap (λ p. p.1) sample_handled)

abbrev sample_marshal : Response → Option Text
sample_marshal r = some (codes "[]")

abbrev any_text : Text → Bool
any_text t = true

sample_answered :
    (exchange sample_json sample_operations any_text sample_marshal
      ((write any_text (codes "{}") (took 6 ∷ [])).0 ++ [])
      (took 6 ∷ [])
      4).1
    ≡ some ((write any_text (codes "[]") (took 6 ∷ [])).0, some sent)
unfolding exchange reply read write write_all encode put_uint32 get_uint32 handle answer dispatch
    finish decode_call decode_confirmed_id text_at lookup text_eq valid_identifier operations
    handler_of normalize validate valid_states valid_network valid_gateway valid_transfer
    valid_logging valid_onboarding valid_storage valid_recovery valid_upstream within_rows
    valid_card one_of
sample_answered = refl
