-- ===== src/Tests/Connections.antt =====
-- A connection on which two messages are read. A message is a number: 0 is a handshake, and the
-- application answers each with two messages.
use fursoy_vault.Prelude.{
  Bytes, ℕ, ◌+◌, none, some, [], ◌∷◌, ◌++◌, ◌==◌, le_bytes, length, ◌≡◌, refl, Bytes-discrete,
  ℕ_discrete,
}
use fursoy_vault.Error.{FcpResult, ok, err, json}
use fursoy_vault.Protocol.Envelope.{Envelope}
use fursoy_vault.Protocol.Framing.{Reader, Writer, EnvelopeJson}
use fursoy_vault.HostLoop.{App, Connection, Served, serve, run_connection}
use fursoy_vault.HostLoop.Ends.{run_connection_total}
use fursoy_vault.HostLoop.Exchanges.{Exchange, serve-Exchange}

abbrev app : App ℕ ℕ
app = record {
  handle = λ m s. (ok (m ∷ (m + 1) ∷ []), s + 1);
  error_group_id = λ s. none;
  is_handshake = λ m. m == 0;
  operation_error = λ id group code. 99;
  reason_text = λ reason. [];
}

abbrev envelope_at : ℕ → ℕ → Envelope ℕ
envelope_at n m = record { v = 7; conn_nonce = 3 ∷ []; seq = n; id = n; message = m }

abbrev decode_envelope : Bytes → FcpResult (Envelope ℕ)
decode_envelope (n ∷ m ∷ _) = ok (envelope_at n m)
decode_envelope _ = err json

abbrev wire : EnvelopeJson ℕ
wire = record { encode = λ e. ok (e.seq ∷ e.message ∷ []); decode = decode_envelope }

abbrev frame_of : Bytes → Bytes
frame_of body = le_bytes 4 (length body) ++ body

abbrev stream : Reader
stream = record { bytes = frame_of (1 ∷ 0 ∷ []) ++ frame_of (2 ∷ 4 ∷ []); ending = none }

abbrev to_write : Writer
to_write = record { written = []; room = 100 }

run_connection_total_example :
    (result : FcpResult (Unit {0}) × Writer) × (run_connection app wire (λ m. ok 0) stream to_write
      ≡ some result)
run_connection_total_example = run_connection_total app wire (λ m. ok 0) stream to_write

abbrev connected : Connection
connected = record {
  negotiated_version = 7;
  nonce = 3 ∷ [];
  incoming_sequence = 1;
  outgoing_sequence = 2;
}

abbrev second_frame : Reader
second_frame = record { bytes = frame_of (2 ∷ 4 ∷ []); ending = none }

abbrev written_after : Writer
written_after = record { written = frame_of (3 ∷ 4 ∷ []) ++ frame_of (4 ∷ 5 ∷ []); room = 88 }

served : serve app wire 10 second_frame connected 1 to_write ≡ some (ok tt, 2, written_after)
unfolding serve fursoy_vault.Protocol.Framing.read_envelope fursoy_vault.Protocol.Framing.read_exact
    fursoy_vault.Protocol.Framing.read_body fursoy_vault.HostLoop.accept
    fursoy_vault.Protocol.Envelope.envelope_validate
    fursoy_vault.Protocol.Envelope.supported_protocol Bytes-discrete ℕ_discrete
    fursoy_vault.HostLoop.answer fursoy_vault.HostLoop.send_all
    fursoy_vault.Protocol.Framing.write_envelope fursoy_vault.Protocol.Framing.write_all
served = refl

serve-Exchange_example : Exchange app wire second_frame connected to_write written_after (ok tt)
serve-Exchange_example =
    serve-Exchange app wire 10 second_frame connected 1 2 to_write written_after (ok tt) served
