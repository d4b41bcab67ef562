-- ===== src/Protocol/Framing/RoundTrip.antt =====
-- What is written is read back.
use fursoy_vault.Prelude.{
  Bytes, ℕ, ◌<◌, false, ◌||◌, ◌==◌, ltb, Option, some, [], ◌++◌, ◌≡◌, refl, arith, length, drop,
  length-append, le_bytes, from_le-le_bytes, Bool-cases, inl, inr, take-exact, drop-exact,
}
use mathlib.Core.List.{append_assoc}
use fursoy_vault.Error.{FcpError, ok}
use fursoy_vault.Protocol.Envelope.{Envelope}
use fursoy_vault.Protocol.Framing.{
  Writer, EnvelopeJson, max_frame_bytes, read_exact, write_all, read_body, then_write,
  read_envelope, write_envelope,
}

module _ {M : Type 0} (j : EnvelopeJson M) where
  read_exact-front :
      (n : ℕ) (xs rest : Bytes) (ending : Option FcpError)
      → length xs ≡ n
      → read_exact n (record { bytes = xs ++ rest; ending = ending })
        ≡ ok (xs, record { bytes = rest; ending = ending })
  unfolding read_exact
  read_exact-front n xs rest ending e =
      let k = length-append xs rest in
      let enough : ltb (length (xs ++ rest)) n ≡ false = ground arith in
      rw (enough, take-exact n xs rest e, drop-exact n xs rest e) refl

  read_body-front :
      (e : Envelope M) (body rest : Bytes) (ending : Option FcpError)
      → (length body == 0 || ltb max_frame_bytes (length body)) ≡ false
      → j.decode body ≡ ok e
      → read_body j (le_bytes 4 (length body)) (record { bytes = body ++ rest; ending = ending })
        ≡ ok (some e, record { bytes = rest; ending = ending })
  unfolding read_body
  read_body-front e body rest ending fits d =
      let small : length body < 4294967296 = ground arith in
      rw
        (
          from_le-le_bytes 4 (length body) small,
          fits,
          read_exact-front (length body) body rest ending refl,
          d,
        )
        refl

  frame-read_envelope :
      (e : Envelope M) (body rest : Bytes) (ending : Option FcpError)
      → (length body == 0 || ltb max_frame_bytes (length body)) ≡ false
      → j.decode body ≡ ok e
      → read_envelope j
          (record { bytes = le_bytes 4 (length body) ++ (body ++ rest); ending = ending })
        ≡ ok (some e, record { bytes = rest; ending = ending })
  unfolding read_envelope
  frame-read_envelope e body rest ending fits d =
      rw (read_exact-front 3 (drop 1 (le_bytes 4 (length body))) (body ++ rest) ending refl)
        (read_body-front e body rest ending fits d)

  full_frame :
      (room : ℕ) (body : Bytes) (w : Writer)
      → then_write j body
          (write_all (le_bytes 4 (length body)) (record { written = []; room = room }))
        ≡ (ok tt, w)
      → w.written ≡ le_bytes 4 (length body) ++ body
  unfolding write_all
  full_frame room body w h = ground arith

  -- An envelope that is written is read back, and the reader stands behind its frame.
  pub read_envelope-write_envelope :
      (e : Envelope M) (body rest : Bytes) (room : ℕ) (w : Writer) (ending : Option FcpError)
      → j.encode e ≡ ok body
      → j.decode body ≡ ok e
      → write_envelope j e (record { written = []; room = room }) ≡ (ok tt, w)
      → read_envelope j (record { bytes = w.written ++ rest; ending = ending })
        ≡ ok (some e, record { bytes = rest; ending = ending })
  unfolding write_envelope
  read_envelope-write_envelope e body rest room w ending c d h =
      elim (Bool-cases (length body == 0 || ltb max_frame_bytes (length body))) [
        | inl t ↦ absurd (cc (rw (c, write_envelope, t) at h))
        | inr t ↦
            let f = full_frame room body w (rw (c, write_envelope, t) at h) in
            rw (f, append_assoc) (frame-read_envelope e body rest ending t d)
      ]
