-- ===== src/Tests/Frames.antt =====
-- Envelopes and their frames.
use fursoy_vault.Prelude.{Bytes, ℕ, none, some, [], ◌∷◌, ◌++◌, ◌≡◌, refl}
use fursoy_vault.Error.{ok}
use fursoy_vault.Protocol.Envelope.{Envelope}
use fursoy_vault.Protocol.Framing.{Reader, Writer, EnvelopeJson, read_envelope, write_envelope}
use fursoy_vault.Protocol.Framing.RoundTrip.{read_envelope-write_envelope}

abbrev greeting : Envelope ℕ
greeting = record { v = 7; conn_nonce = 3 ∷ []; seq = 5; id = 2; message = 1 }

abbrev body : Bytes
body = 123 ∷ 125 ∷ []

abbrev envelope_json : EnvelopeJson ℕ
envelope_json = record { encode = λ e. ok body; decode = λ bytes. ok greeting }

abbrev framed : Writer
framed = record { written = 2 ∷ 0 ∷ 0 ∷ 0 ∷ 123 ∷ 125 ∷ []; room = 4 }

writes :
    write_envelope envelope_json greeting (record { written = []; room = 10 }) ≡ (ok tt, framed)
unfolding write_envelope fursoy_vault.Protocol.Framing.write_all
writes = refl

read_envelope-write_envelope_example :
    read_envelope envelope_json (record { bytes = framed.written ++ (9 ∷ []); ending = none })
    ≡ ok (some greeting, record { bytes = 9 ∷ []; ending = none })
read_envelope-write_envelope_example =
    read_envelope-write_envelope envelope_json greeting body (9 ∷ []) 10 framed none refl refl
      writes
