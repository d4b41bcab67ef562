-- ===== src/Protocol/Envelope/Accepts.antt =====
-- What a connection accepts.
use fursoy_vault.Prelude.{
  Bytes, Bytes-discrete, bytes_eq, ℕ, ◌+◌, ◌<◌, u64_limit, ◌≡◌, ◌≢◌, inl, inr, arith, eqb→eq, true,
  Bool-cases,
}
use fursoy_vault.Error.{ok}
use fursoy_vault.Protocol.Envelope.{Envelope, supported_protocol, envelope_validate}

-- An envelope that is accepted has a supported version, the nonce of the connection, an id, and the
-- sequence that follows the previous one without wrapping round, so that none is accepted twice.
pub envelope_validate_sequence :
    {M : Type 0} (e : Envelope M) (nonce : Bytes) (previous : ℕ)
    → envelope_validate e nonce previous ≡ ok tt
    → (supported_protocol e.v ≡ true)
      × (e.conn_nonce ≡ nonce)
      × (e.seq ≡ previous + 1)
      × (e.seq < u64_limit)
      × (e.id ≢ 0)
unfolding envelope_validate
envelope_validate_sequence e nonce previous h = elim (Bool-cases (bytes_eq e.conn_nonce nonce)) [
  | inl t ↦ (
    ground arith,
    eqb→eq Bytes-discrete e.conn_nonce nonce t,
    ground arith,
    ground arith,
    ground arith,
  )
  | inr t ↦ absurd (ground arith)
]
