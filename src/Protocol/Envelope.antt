-- ===== src/Protocol/Envelope.antt =====
-- native-host/src/protocol/envelope.rs: the envelope of a message and its validation. `M` is the type
-- of a message.
pub mod Accepts
use fursoy_vault.Prelude.{Bytes, bytes_eq, Uuid, is_nil, checked_suc, ℕ, Bool, ◌||◌, ◌==◌, not}
use fursoy_vault.Error.{
  FcpResult, ◌>>=◌, ◌>>◌, refuse_if, ok_or, protocol, protocol_unsupported, nonce_mismatch,
  sequence_overflow, sequence_unexpected, message_id_nil,
}

abbrev pub legacy_protocol_version : ℕ
legacy_protocol_version = 6

abbrev pub protocol_version : ℕ
protocol_version = 7

unfoldable pub supported_protocol : ℕ → Bool
supported_protocol version = version == legacy_protocol_version || version == protocol_version

pub record Envelope (M : Type 0) : Type 0 where
  pub v : ℕ  -- u16
  pub conn_nonce : Bytes
  pub seq : ℕ  -- u64
  pub id : Uuid
  pub message : M

unfoldable pub envelope_validate : {M : Type 0} → Envelope M → Bytes → ℕ → FcpResult (Unit {0})
envelope_validate e expected_nonce previous_sequence = do
  refuse_if (not (supported_protocol e.v)) (protocol protocol_unsupported)
  refuse_if (not (bytes_eq e.conn_nonce expected_nonce)) (protocol nonce_mismatch)
  expected_sequence ← ok_or (checked_suc previous_sequence) (protocol sequence_overflow)
  refuse_if (not (e.seq == expected_sequence)) (protocol sequence_unexpected)
  refuse_if (is_nil e.id) (protocol message_id_nil)
