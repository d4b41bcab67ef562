-- ===== src/Protocol/Framing.antt =====
-- native-host/src/protocol/framing.rs: an envelope in a frame of four length bytes and JSON. A reader
-- is the bytes to come and what the read after them answers, where `none` is the end of the stream.
-- A writer is the bytes written and how many more it takes before it fails.
pub mod RoundTrip
use fursoy_vault.Prelude.{
  Bytes, ℕ, zero, suc, ◌+◌, ◌-◌, ◌^◌, Bool, true, false, ◌||◌, ◌==◌, ltb, leb, Option, none, some,
  ◌*◌, List, [], ◌∷◌, ◌++◌, length, take, drop, le_bytes, from_le, if◌then◌else◌,
}
use fursoy_vault.Error.{
  FcpError, FcpResult, ok, err, ◌>>=◌, ◌>>◌, refuse_if, io, protocol, frame_length_out_of_range,
}
use fursoy_vault.Protocol.Envelope.{Envelope}

abbrev pub max_frame_bytes : ℕ
max_frame_bytes = 1024 * 1024

pub record Reader : Type 0 where
  pub bytes : Bytes
  pub ending : Option FcpError

pub record Writer : Type 0 where
  pub written : Bytes
  pub room : ℕ

-- serde_json for an envelope.
pub record EnvelopeJson (M : Type 0) : Type 0 where
  pub encode : Envelope M → FcpResult Bytes
  pub decode : Bytes → FcpResult (Envelope M)

abbrev ending_error : Option FcpError → FcpError
ending_error none = io
ending_error (some e) = e

-- `read_exact`
unfoldable pub read_exact : ℕ → Reader → FcpResult (Bytes × Reader)
read_exact n r =
    if ltb (length r.bytes) n
    then err (ending_error r.ending)
    else ok (take n r.bytes, record r { bytes = drop n r.bytes })

-- `write_all`
unfoldable pub write_all : Bytes → Writer → FcpResult (Unit {0}) × Writer
write_all bytes w =
    if ltb w.room (length bytes)
    then (err io, record { written = w.written ++ take w.room bytes; room = 0 })
    else (ok tt, record { written = w.written ++ bytes; room = w.room - length bytes })

module _ {M : Type 0} (j : EnvelopeJson M) where
  -- The rest of a frame, once its four length bytes are read.
  unfoldable pub read_body : Bytes → Reader → FcpResult (Option (Envelope M) × Reader)
  read_body length_bytes r = do
    refuse_if (from_le length_bytes == 0 || ltb max_frame_bytes (from_le length_bytes))
        (protocol frame_length_out_of_range)
    (body, r') ← read_exact (from_le length_bytes) r
    envelope ← j.decode body
    ok (some envelope, r')

  unfoldable pub read_envelope : Reader → FcpResult (Option (Envelope M) × Reader)
  read_envelope r = elim r.bytes [
    | [] ↦ elim r.ending [ none ↦ ok (none, r) | some e ↦ err e ]
    | first ∷ rest ↦ do
      (others, r') ← read_exact 3 (record r { bytes = rest })
      read_body (first ∷ others) r'
  ]

  abbrev pub then_write : Bytes → FcpResult (Unit {0}) × Writer → FcpResult (Unit {0}) × Writer
  then_write body (ok _, w) = write_all body w
  then_write body (err e, w) = (err e, w)

  -- `flush` is taken to succeed where the writes did.
  unfoldable pub write_envelope : Envelope M → Writer → FcpResult (Unit {0}) × Writer
  write_envelope e w = elim (j.encode e) [
    | err e ↦ (err e, w)
    | ok body ↦
        if length body == 0 || ltb max_frame_bytes (length body)
        then (err (protocol frame_length_out_of_range), w)
        else then_write body (write_all (le_bytes 4 (length body)) w)
  ]
