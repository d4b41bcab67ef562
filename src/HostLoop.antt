-- ===== src/HostLoop.antt =====
-- native-host/src/host_loop.rs: one connection. `M` is the type of a message and `S` the state of the
-- application, which handles a message.
pub mod Serves
pub mod Exchanges
pub mod Ends
use fursoy_vault.Prelude.{
  Bytes, bytes_eq, Uuid, checked_suc, ℕ, zero, suc, ◌+◌, Bool, true, false, Option, none, some,
  List, [], ◌∷◌, ◌++◌, not, ◌==◌, length, if◌then◌else◌, codes,
}
use fursoy_vault.Error.{
  Reason, FcpError, FcpResult, ok, err, ◌>>=◌, ◌>>◌, refuse_if, ok_or, io, json, windows, tpm,
  crypto, format, protocol, capability, user_actionable, user_verification_not_configured,
  closed_before_handshake, handshake_expected, version_changed, outgoing_overflow,
  caller_not_authorized,
}
use fursoy_vault.Protocol.Envelope.{Envelope, envelope_validate}
use fursoy_vault.Protocol.Framing.{Reader, Writer, EnvelopeJson, read_envelope, write_envelope}

-- The application, and what the loop uses of a message: the test for a handshake, and the error message
-- of a request.
pub record App (M S : Type 0) : Type 0 where
  pub handle : M → S → FcpResult (List M) × S
  pub error_group_id : S → Option Uuid
  pub is_handshake : M → Bool
  pub operation_error : Uuid → Option Uuid → Bytes → M
  pub reason_text : Reason → Bytes

-- The variables of the loop.
pub record Connection : Type 0 where
  pub negotiated_version : ℕ
  pub nonce : Bytes
  pub incoming_sequence : ℕ  -- u64
  pub outgoing_sequence : ℕ  -- u64

-- Results, with the state of the application and the stream that is written.
abbrev pub Served : Type 0 → Type 0 → Type 0
Served A S = FcpResult A × S × Writer

unfoldable pub validate_caller_origin : Bytes → List Bytes → FcpResult (Unit {0})
validate_caller_origin expected [] = err (protocol caller_not_authorized)
validate_caller_origin expected (origin ∷ args) =
    refuse_if (not (bytes_eq origin expected)) (protocol caller_not_authorized)

unfoldable pub error_category : (Reason → Bytes) → FcpError → Bytes
error_category text io = codes "io"
error_category text json = codes "json"
error_category text windows = codes "windows_provider"
error_category text tpm = codes "tpm_provider"
error_category text (crypto _) = codes "crypto"
error_category text (format _) = codes "vault_format"
error_category text (protocol _) = codes "protocol"
error_category text (capability _) = codes "capability"
error_category text (user_actionable code) = text code
error_category text user_verification_not_configured = codes "hello_not_configured"

module _ {M S : Type 0} (app : App M S) where
  unfoldable pub validate_first_envelope : Envelope M → FcpResult (Unit {0})
  validate_first_envelope e = do
    refuse_if (not (app.is_handshake e.message)) (protocol handshake_expected)
    envelope_validate e e.conn_nonce 0

  -- What is sent for the answer of the application: its messages, or one error that names no detail.
  abbrev pub messages_for : Uuid → FcpResult (List M) × S → List M × S
  messages_for id (ok messages, s) = (messages, s)
  messages_for id (err e, s) =
      (app.operation_error id (app.error_group_id s) (error_category app.reason_text e) ∷ [], s)

  -- The checks on a message after the first one.
  unfoldable pub accept : Connection → Envelope M → FcpResult (Unit {0})
  accept c e = do
    envelope_validate e c.nonce c.incoming_sequence
    refuse_if (not (e.v == c.negotiated_version)) (protocol version_changed)

  module _ (j : EnvelopeJson M) where
    abbrev pub response : Connection → Uuid → ℕ → M → Envelope M
    response c id n m = record {
      v = c.negotiated_version;
      conn_nonce = c.nonce;
      seq = n;
      id = id;
      message = m;
    }

    -- The loop over the messages of one answer.
    unfoldable pub send_all : Uuid → List M → Connection → Writer → FcpResult Connection × Writer
    send_all id [] c w = (ok c, w)
    send_all id (m ∷ ms) c w = elim (checked_suc c.outgoing_sequence) [
      | none ↦ (err (protocol outgoing_overflow), w)
      | some n ↦ elim (write_envelope j (response c id n m) w).0 [
        | err e ↦ (err e, (write_envelope j (response c id n m) w).1)
        | ok _ ↦
            send_all id ms (record c { outgoing_sequence = n })
              (write_envelope j (response c id n m) w).1
      ]
    ]

    abbrev with_state : S → FcpResult Connection × Writer → Served Connection S
    with_state s (r, w) = (r, s, w)

    abbrev answer_with : Uuid → Connection → Writer → List M × S → Served Connection S
    answer_with id c w (messages, s) = with_state s (send_all id messages c w)

    -- A message that was accepted.
    unfoldable pub answer : Envelope M → Connection → S → Writer → Served Connection S
    answer e c s w =
        answer_with e.id (record c { incoming_sequence = e.seq }) w
          (messages_for e.id (app.handle e.message s))

    -- The loop after the first message; `none` is out of fuel.
    unfoldable pub serve : ℕ → Reader → Connection → S → Writer → Option (Served (Unit {0}) S)
    serve zero r c s w = none
    serve (suc fuel) r c s w = elim (read_envelope j r) [
      | err e ↦ some (err e, s, w)
      | ok (none, r') ↦ some (ok tt, s, w)
      | ok (some e, r') ↦ elim (accept c e) [
        | err f ↦ some (err f, s, w)
        | ok _ ↦ elim (answer e c s w).0 [
          | err f ↦ some (err f, (answer e c s w).1, (answer e c s w).2)
          | ok c' ↦ serve fuel r' c' (answer e c s w).1 (answer e c s w).2
        ]
      ]
    ]

    abbrev opening : Envelope M → Connection
    opening first = record {
      negotiated_version = first.v;
      nonce = first.conn_nonce;
      incoming_sequence = 0;
      outgoing_sequence = 0;
    }

    abbrev then_serve : Reader → Served Connection S → Option (Served (Unit {0}) S)
    then_serve r (err f, s, w) = some (err f, s, w)
    then_serve r (ok c, s, w) = serve (suc (length r.bytes)) r c s w

    -- `run_connection`, where `open` stands for the paths, the lock and the opening of the application
    -- for the profile of the handshake. The fuel is one more than the bytes that are left.
    unfoldable pub run_connection :
        (M → FcpResult S) → Reader → Writer → Option (FcpResult (Unit {0}) × Writer)
    run_connection open_app r w = elim (read_envelope j r) [
      | err e ↦ some (err e, w)
      | ok (none, r') ↦ some (err (protocol closed_before_handshake), w)
      | ok (some first, r') ↦ elim (validate_first_envelope first) [
        | err e ↦ some (err e, w)
        | ok _ ↦ elim (open_app first.message) [
          | err e ↦ some (err e, w)
          | ok s ↦ elim (then_serve r' (answer first (opening first) s w)) [
            | none ↦ none
            | some (result, s', w') ↦ some (result, w')
          ]
        ]
      ]
    ]
