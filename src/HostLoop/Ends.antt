-- ===== src/HostLoop/Ends.antt =====
-- The loop ends: each round takes bytes off the stream.
use fursoy_vault.Prelude.{
  Bytes, ℕ, zero, suc, ◌≤◌, ◌<◌, ◌||◌, ◌==◌, ltb, Option, none, some, [], ◌∷◌, ◌≡◌, inl, inr, refl,
  arith, ap, length, length-drop, drop, from_le, Bool-cases,
}
use fursoy_vault.Error.{
  FcpError, FcpResult, FcpResult-cases, ok, err, >>=-eq-ok, ok-injective, refuse_if, protocol,
  closed_before_handshake,
}
use fursoy_vault.Protocol.Envelope.{Envelope}
use fursoy_vault.Protocol.Framing.{
  Reader, Writer, EnvelopeJson, max_frame_bytes, read_exact, read_body, read_envelope,
}
use fursoy_vault.HostLoop.{
  App, Connection, Served, accept, answer, serve, validate_first_envelope, run_connection, opening,
  then_serve,
}

read_exact-le :
    (n : ℕ) (r r' : Reader) (b : Bytes)
    → read_exact n r ≡ ok (b, r')
    → length r'.bytes ≤ length r.bytes
unfolding read_exact
read_exact-le n r r' b h = elim (Bool-cases (ltb (length r.bytes) n)) [
  | inl t ↦ absurd (cc (rw (t, read_exact) at h))
  | inr t ↦
      let e : drop n r.bytes ≡ r'.bytes =
        ap (λ (z : Bytes × Reader). z.1.bytes) (ok-injective (rw (t, read_exact) at h)) in
      omega (arith, ap (length {A = ℕ}) e, length-drop n r.bytes)
]

module _ {M : Type 0} (j : EnvelopeJson M) where
  read_body-le :
      (b : Bytes) (r r' : Reader) (o : Option (Envelope M))
      → read_body j b r ≡ ok (o, r')
      → length r'.bytes ≤ length r.bytes
  unfolding read_body
  read_body-le b r r' o h =
      let (_, _, h) =
        >>=-eq-ok (refuse_if (from_le b == 0 || ltb max_frame_bytes (from_le b)) _) _ h in
      let (got, x, h) = >>=-eq-ok (read_exact (from_le b) r) _ h in
      let (e, _, h) = >>=-eq-ok (j.decode got.0) _ h in
      let same = ap (λ (z : Option (Envelope M) × Reader). length z.1.bytes) (ok-injective h) in
      omega (arith, same, read_exact-le (from_le b) r got.1 got.0 x)

  -- An envelope that is read takes bytes off the stream.
  pub read_envelope-lt :
      (r r' : Reader) (e : Envelope M)
      → read_envelope j r ≡ ok (some e, r')
      → length r'.bytes < length r.bytes
  unfolding read_envelope
  read_envelope-lt r r' e h = at r.bytes r.ending h
    where
      at :
          (bytes : Bytes) (ending : Option FcpError)
          → read_envelope j (record { bytes = bytes; ending = ending }) ≡ ok (some e, r')
          → length r'.bytes < length bytes
      at [] none h = absurd (ground arith)
      at [] (some f) h = absurd (cc h)
      at (first ∷ rest) ending h =
          let (got, x, h) =
            >>=-eq-ok (read_exact 3 (record { bytes = rest; ending = ending })) _ h in
          omega (
            arith,
            read_exact-le 3 _ got.1 got.0 x,
            read_body-le (first ∷ got.0) got.1 r' (some e) h,
          )

module _ {M S : Type 0} (app : App M S) (j : EnvelopeJson M) where
  serve_total :
      (fuel : ℕ) (r : Reader) (c : Connection) (s : S) (w : Writer)
      → length r.bytes < fuel
      → (result : Served (Unit {0}) S) × (serve app j fuel r c s w ≡ some result)
  unfolding serve
  serve_total zero r c s w h = absurd (omega arith)
  serve_total (suc fuel) r c s w h = elim (FcpResult-cases (read_envelope j r)) [
    | inr (e, t) ↦ ((err e, s, w), rw (t, serve) refl)
    | inl ((none, r'), t) ↦ ((ok tt, s, w), rw (t, serve) refl)
    | inl ((some e, r'), t) ↦ elim (FcpResult-cases (accept app c e)) [
      | inr (f, a) ↦ ((err f, s, w), rw (t, a, serve) refl)
      | inl (_, a) ↦ elim (FcpResult-cases (answer app j e c s w).0) [
        | inr (f, b) ↦
            ((err f, (answer app j e c s w).1, (answer app j e c s w).2), rw (t, a, b, serve) refl)
        | inl (c', b) ↦
            let less = read_envelope-lt j r r' e t in
            let (result, q) =
              serve_total fuel r' c' (answer app j e c s w).1 (answer app j e c s w).2
                (omega arith) in
            (result, rw (t, a, b, serve) q)
      ]
    ]
  ]

  then_serve_total :
      (r : Reader) (x : Served Connection S)
      → (result : Served (Unit {0}) S) × (then_serve app j r x ≡ some result)
  then_serve_total r (err f, s, w) = ((err f, s, w), refl)
  then_serve_total r (ok c, s, w) = serve_total (suc (length r.bytes)) r c s w (omega arith)

  -- Every connection ends with a result, whatever stands on the stream and whatever the application
  -- does: the fuel of the model never runs out.
  pub run_connection_total :
      (open_app : M → FcpResult S) (r : Reader) (w : Writer)
      → (result : FcpResult (Unit {0}) × Writer) × (run_connection app j open_app r w ≡ some result)
  unfolding run_connection
  run_connection_total open_app r w = elim (FcpResult-cases (read_envelope j r)) [
    | inr (e, t) ↦ ((err e, w), rw (t, run_connection) refl)
    | inl ((none, r'), t) ↦
        ((err (protocol closed_before_handshake), w), rw (t, run_connection) refl)
    | inl ((some first, r'), t) ↦ elim (FcpResult-cases (validate_first_envelope app first)) [
      | inr (e, v) ↦ ((err e, w), rw (t, v, run_connection) refl)
      | inl (_, v) ↦ elim (FcpResult-cases (open_app first.message)) [
        | inr (e, o) ↦ ((err e, w), rw (t, v, o, run_connection) refl)
        | inl (s, o) ↦
            let ((result, s', w'), e) =
              then_serve_total r' (answer app j first (opening app j first) s w) in
            ((result, w'), rw (t, v, o, e, run_connection) refl)
      ]
    ]
  ]
