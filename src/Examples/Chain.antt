-- ===== src/Examples/Chain.antt =====
-- Tests of src/validate.rs: Alice lets Bob send messages, Bob passes that on to Carol, and Carol
-- invokes it.
use pq_ucan.Base.{
  ℕ, ◌≡◌, ◌↔◌, refl, ◌++◌, List, [], ◌∷◌, Option, none, some, pos, true, false, text_eq, ensure,
  codes, ok, err,
}
use pq_ucan.Command.{Command}
use pq_ucan.Crypto.{Backend, ed25519, verification_failed}
use pq_ucan.Did.{Did}
use pq_ucan.Error.{TokenKind}
use pq_ucan.Examples.{same_number, same_number-IsEquality}
use pq_ucan.Ipld.{Ipld, Fields, end}
use pq_ucan.Policy.Selector.{identity}
use pq_ucan.Policy.Syntax.{Statement}
use pq_ucan.Time.{at, never}
use pq_ucan.Token.{
  Envelope, dag_cbor, cbor, Delegation, Invocation, Resolver, Subject, did, powerline,
}
use pq_ucan.Base.{All, ◌≢◌, ◌⊎◌}
use pq_ucan.Validate.Authorized.{Authorized, authorize_iff, authorize-attenuates}
use pq_ucan.Validate.Map.{find}
use pq_ucan.Validate.Pipeline.{Validator, Proof, proof_of, authorize, validate}
use pq_ucan.Command.{covers, parse}
use pq_ucan.Command.Laws.{IsCommand, parse-IsCommand}
use pq_ucan.Validate.Chain.{check_structure}
use pq_ucan.Validate.Errors.{ValidationError, replay, expired, proof}
use pq_ucan.Validate.Replay.{Fresh, run_all, validate_iff, validate-guard, validate_once}
use pq_ucan.Validate.Stores.{Seen, record_cid}
use pq_ucan.Validate.Structure.{Structured, check_structure_iff}

abbrev pub alice : Did
alice = codes "did:key:alice"

abbrev pub bob : Did
bob = codes "did:key:bob"

abbrev pub carol : Did
carol = codes "did:key:carol"

-- A toy scheme: a key is its owner's name, and a signature the key and the message.
abbrev pub toy : Backend
toy = record {
  key_is_valid = λ a key. true;
  check =
      λ a key message signature. ensure (text_eq (key ++ message) signature) verification_failed;
}

abbrev keys : Resolver
keys d = ok record { algorithm = ed25519; bytes = d }

abbrev envelope_of : Did → ℕ → TokenKind → Envelope ℕ
envelope_of issuer number kind' = record {
  token_bytes = 7 ∷ number ∷ [];
  cid = number;
  header = record { algorithm = ed25519; encoding = dag_cbor };
  signature = record { algorithm = ed25519; bytes = issuer ++ (number ∷ []) };
  signed = cbor 1 2;
  kind = kind';
}

abbrev delegate : ℕ → Did → Did → Subject → Command → Delegation ℕ
delegate number from to about what = record {
  envelope = envelope_of from number TokenKind.delegation;
  payload = record {
    issuer = from;
    audience = to;
    subject = about;
    command = what;
    policy = Statement.not_equal identity Ipld.null ∷ [];
    nonce = [];
    meta = end;
    not_before = some (pos 100);
    expiration = at (pos 200);
  };
}

abbrev pub to_bob : Delegation ℕ
to_bob = delegate 1 alice bob (did alice) (codes "/msg")

abbrev pub to_carol : Delegation ℕ
to_carol = delegate 2 bob carol powerline (codes "/msg/send")

abbrev pub invoke : ℕ → Did → Did → Command → Fields ℕ → List ℕ → Invocation ℕ
invoke number from about what arguments links = record {
  envelope = envelope_of from number TokenKind.invocation;
  payload = record {
    issuer = from;
    subject = about;
    audience = none;
    command = what;
    args = arguments;
    proofs = links;
    meta = end;
    nonce = [];
    expiration = never;
    issued_at = none;
    cause = none;
  };
}

abbrev pub send : Invocation ℕ
send = invoke 3 carol alice (codes "/msg/send") end (1 ∷ 2 ∷ [])

abbrev held : ℕ → Option (Delegation ℕ)
held = find same_number ((1, to_bob) ∷ (2, to_carol) ∷ [])

abbrev pub validator : Validator ℕ
validator = record {
  store = held;
  resolver = keys;
  now = pos 150;
  skew = 60;
  executor = some alice;
  max_proofs = some 4;
  revocations = none;
}

send_is_authorized : authorize same_number toy validator send ≡ ok (to_bob ∷ to_carol ∷ [])
unfolding authorize
send_is_authorized = refl

-- A validator whose clock is past every delegation.
abbrev impatient : Validator ℕ → Validator ℕ
impatient v = record {
  store = v.store;
  resolver = v.resolver;
  now = pos 500;
  skew = v.skew;
  executor = v.executor;
  max_proofs = v.max_proofs;
  revocations = v.revocations;
}

abbrev pub to_send : List (Delegation ℕ)
to_send = to_bob ∷ to_carol ∷ []

-- The guard is empty, and then holds the invocation.
abbrev guard : Option (Seen same_number)
guard = some []

abbrev sent : Proof ℕ
sent = proof_of send to_send

send_is_accepted :
    (validate same_number toy (record_cid same_number) validator guard send).1 ≡ ok sent
unfolding validate
send_is_accepted = refl

send_is_replayed :
    (validate same_number toy
      (record_cid same_number)
      validator
      (validate same_number toy (record_cid same_number) validator guard send).0
      send).1
    ≡ err (replay 3)
unfolding validate
send_is_replayed = refl

validate_iff_example :
    ((validate same_number toy (record_cid same_number) validator guard send).1 ≡ ok sent) ↔ (
      (chain : List (Delegation ℕ)) × (Authorized same_number toy validator send chain)
      × (Fresh (record_cid same_number) guard send)
      × (proof_of send chain ≡ sent))
validate_iff_example =
    validate_iff same_number toy (record_cid same_number) validator guard send sent

authorize_iff_example :
    (authorize same_number toy validator send ≡ ok to_send)
    ↔ Authorized same_number toy validator send to_send
authorize_iff_example = authorize_iff same_number toy validator send to_send

msg_parses : parse (λ c. false) (codes "/msg") ≡ ok (codes "/msg")
unfolding parse
msg_parses = refl

msg_send_parses : parse (λ c. false) (codes "/msg/send") ≡ ok (codes "/msg/send")
unfolding parse
msg_send_parses = refl

msg-IsCommand : IsCommand (codes "/msg")
msg-IsCommand = (parse-IsCommand (λ c. false) (codes "/msg") (codes "/msg") msg_parses).2

msg_send-IsCommand : IsCommand (codes "/msg/send")
msg_send-IsCommand =
    (parse-IsCommand (λ c. false) (codes "/msg/send") (codes "/msg/send") msg_send_parses).2

authorize-attenuates_example :
    All (λ d. covers d.payload.command (codes "/msg/send") ≡ true) to_send
authorize-attenuates_example =
    authorize-attenuates same_number toy validator send to_send msg_send-IsCommand
      (msg-IsCommand, (msg_send-IsCommand, tt)) send_is_authorized

validate_once_example :
    (validate same_number toy
      (record_cid same_number)
      validator
      (run_all same_number same_number-IsEquality toy
        (validate same_number toy (record_cid same_number) validator guard send).0
        ((validator, send) ∷ []))
      send).1
    ≢ ok sent
validate_once_example =
    validate_once same_number same_number-IsEquality toy validator validator [] send send sent sent
      ((validator, send) ∷ []) send_is_accepted refl

send_is_late :
    (validate same_number toy (record_cid same_number) (impatient validator) guard send).1
    ≡ err (expired (proof 0) (pos 200))
unfolding validate
send_is_late = refl

validate-guard_example :
    ((validate same_number toy (record_cid same_number) (impatient validator) guard send).0 ≡ guard)
    ⊎ (◌≡◌ {A = ValidationError ℕ} (expired (proof 0) (pos 200)) (replay 3))
validate-guard_example =
    validate-guard same_number toy (record_cid same_number) (impatient validator) guard send
      (expired (proof 0) (pos 200)) send_is_late

check_structure_iff_example :
    (check_structure to_send alice (some (carol, codes "/msg/send")) ≡ ok tt)
    ↔ Structured to_send alice (some (carol, codes "/msg/send"))
check_structure_iff_example = check_structure_iff to_send alice (some (carol, codes "/msg/send"))
