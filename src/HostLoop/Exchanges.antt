-- ===== src/HostLoop/Exchanges.antt =====
-- What a whole connection is: requests that are numbered on, and the numbered frames of their answers.
use fursoy_vault.Prelude.{
  Bytes, ℕ, zero, suc, ◌+◌, none, some, List, [], ◌∷◌, ◌++◌, ◌≡◌, ◌⊎◌, inl, inr, refl, arith, ap,
  sym, ◌∙◌, All,
}
use mathlib.Core.List.{append_assoc, append-nil}
use mathlib.Core.Path.{subst}
use fursoy_vault.Error.{FcpError, FcpResult, FcpResult-cases, ok, err, >>=-eq-ok, ok-injective}
use fursoy_vault.Protocol.Envelope.{Envelope, envelope_validate}
use fursoy_vault.Protocol.Envelope.Accepts.{envelope_validate_sequence}
use fursoy_vault.Protocol.Framing.{Reader, Writer, EnvelopeJson, read_envelope}
use fursoy_vault.HostLoop.{App, Connection, Served, accept, answer, serve, messages_for}
use fursoy_vault.HostLoop.Serves.{
  frame, Frames, IsCut, Follows, Numbered, Sent, EndsWith, send_all-Sent,
}

module _ {M : Type 0} where
  -- The envelopes that stand on the stream one after the other.
  abbrev pub Reads : EnvelopeJson M → Reader → List (Envelope M) → Reader → Type 0
  Reads j r [] r' = r ≡ r'
  Reads j r (e ∷ es) r' = (m : Reader) × (read_envelope j r ≡ ok (some e, m)) × Reads j m es r'

  -- The responses come in the order of the requests, and each carries the id of its request.
  abbrev pub Answers : List (Envelope M) → List (Envelope M) → Type 0
  Answers [] responses = responses ≡ []
  Answers (q ∷ qs) responses =
      (now : List (Envelope M)) × (later : List (Envelope M)) × (responses ≡ now ++ later)
      × All (λ (e : Envelope M). e.id ≡ q.id) now
      × Answers qs later

  Numbered-append :
      (v : ℕ) (nonce : Bytes) (n m k : ℕ) (es fs : List (Envelope M))
      → Numbered v nonce n es m
      → Numbered v nonce m fs k
      → Numbered v nonce n (es ++ fs) k
  Numbered-append v nonce n m k [] fs e h = subst (λ i. Numbered v nonce i fs k) (sym e) h
  Numbered-append v nonce n m k (e ∷ es) fs (f, g) h =
      (f, Numbered-append v nonce (n + 1) m k es fs g h)

  Frames-append :
      (j : EnvelopeJson M) (es fs : List (Envelope M)) (b b' : Bytes)
      → Frames j es b
      → Frames j fs b'
      → Frames j (es ++ fs) (b ++ b')
  Frames-append j [] fs b b' e h = subst (λ z. Frames j fs (z ++ b')) (sym e) h
  Frames-append j (e ∷ es) fs b b' (body, rest, d, k, g) h = (
    body,
    rest ++ b',
    d,
    ap (λ z. z ++ b') k ∙ append_assoc (frame j body) rest b',
    Frames-append j es fs rest b' g h,
  )

module _ {M S : Type 0} (app : App M S) (j : EnvelopeJson M) where
  pub record Exchange (r : Reader) (c : Connection) (w w' : Writer) (result : FcpResult (Unit {0}))
      : Type 0 where
    pub requests : List (Envelope M)
    pub responses : List (Envelope M)
    pub rest : Reader
    pub last_in : ℕ
    pub last_out : ℕ
    pub bytes : Bytes
    pub tail : Bytes
    pub reads : Reads j r requests rest
    pub incoming : Numbered c.negotiated_version c.nonce c.incoming_sequence requests last_in
    pub outgoing : Numbered c.negotiated_version c.nonce c.outgoing_sequence responses last_out
    pub answering : Answers requests responses
    pub framed : Frames j responses bytes
    pub written : w'.written ≡ w.written ++ (bytes ++ tail)
    pub ends :
        (tail ≡ [])
        ⊎ ((f : FcpError) × (result ≡ err f)
            × IsCut j (Follows c.negotiated_version c.nonce last_out) tail)

  accept-Follows :
      (c : Connection) (e : Envelope M)
      → accept app c e ≡ ok tt
      → Follows c.negotiated_version c.nonce c.incoming_sequence e
  unfolding accept
  accept-Follows c e h =
      let (_, v, h) = >>=-eq-ok (envelope_validate e c.nonce c.incoming_sequence) _ h in
      let (_, n, s, _, _) = envelope_validate_sequence e c.nonce c.incoming_sequence v in
      (ground arith, n, s)

  nothing :
      (r : Reader) (c : Connection) (w : Writer) (result : FcpResult (Unit {0}))
      → Exchange r c w w result
  nothing r c w result = record {
    requests = [];
    responses = [];
    rest = r;
    last_in = c.incoming_sequence;
    last_out = c.outgoing_sequence;
    bytes = [];
    tail = [];
    reads = refl;
    incoming = refl;
    outgoing = refl;
    answering = refl;
    framed = refl;
    written = sym (append-nil w.written);
    ends = inl refl;
  }

  -- One more request before the rest of a connection.
  round :
      (r m : Reader) (c : Connection) (e : Envelope M) (w w₁ w₂ : Writer) (n : ℕ)
      (result : FcpResult (Unit {0})) (k : FcpResult Connection)
      → read_envelope j r ≡ ok (some e, m)
      → Follows c.negotiated_version c.nonce c.incoming_sequence e
      → (s : Sent app j e.id (record c { incoming_sequence = e.seq }) w (k, w₁)) → s.tail ≡ []
      → s.last ≡ n
      → Exchange m (record c { incoming_sequence = e.seq; outgoing_sequence = n }) w₁ w₂ result
      → Exchange r c w w₂ result
  round r m c e w w₁ w₂ n result k x f s t l y = record {
    requests = e ∷ y.requests;
    responses = s.envelopes ++ y.responses;
    rest = y.rest;
    last_in = y.last_in;
    last_out = y.last_out;
    bytes = s.bytes ++ y.bytes;
    tail = y.tail;
    reads = (m, x, y.reads);
    incoming = (
      f,
      subst (λ i. Numbered c.negotiated_version c.nonce i y.requests y.last_in) f.2 y.incoming,
    );
    outgoing =
        Numbered-append c.negotiated_version c.nonce c.outgoing_sequence n y.last_out s.envelopes
          y.responses
          (subst (Numbered c.negotiated_version c.nonce c.outgoing_sequence s.envelopes) l
            s.numbered)
          y.outgoing;
    answering = (s.envelopes, y.responses, refl, s.answering, y.answering);
    framed = Frames-append j s.envelopes y.responses s.bytes y.bytes s.framed y.framed;
    written =
        y.written
        ∙ ap (λ z. z ++ (y.bytes ++ y.tail)) first
        ∙ append_assoc w.written s.bytes (y.bytes ++ y.tail)
        ∙ ap (◌++◌ w.written) (sym (append_assoc s.bytes y.bytes y.tail));
    ends = y.ends;
  }
    where
      first : w₁.written ≡ w.written ++ s.bytes
      first =
          s.written
          ∙ ap (λ z. w.written ++ (s.bytes ++ z)) t
          ∙ ap (◌++◌ w.written) (append-nil s.bytes)

  -- The last request, whose answer could not be written whole.
  last_round :
      (r m : Reader) (c : Connection) (e : Envelope M) (w w₁ : Writer) (f : FcpError)
      → read_envelope j r ≡ ok (some e, m)
      → Follows c.negotiated_version c.nonce c.incoming_sequence e
      → Sent app j e.id (record c { incoming_sequence = e.seq }) w (err f, w₁)
      → Exchange r c w w₁ (err f)
  last_round r m c e w w₁ f x g s = record {
    requests = e ∷ [];
    responses = s.envelopes;
    rest = m;
    last_in = e.seq;
    last_out = s.last;
    bytes = s.bytes;
    tail = s.tail;
    reads = (m, x, refl);
    incoming = (g, sym g.2);
    outgoing = s.numbered;
    answering = (s.envelopes, [], sym (append-nil s.envelopes), s.answering, refl);
    framed = s.framed;
    written = s.written;
    ends = elim s.ends [ inl (t, _) ↦ inl t | inr (h, _, k) ↦ inr (f, refl, k) ];
  }

  ended :
      (c c' : Connection) (n : ℕ) (tail : Bytes)
      → EndsWith app j c n tail (ok c')
      → (tail ≡ []) × (c' ≡ record c { outgoing_sequence = n })
  ended c c' n tail (inl (t, e)) = (t, ok-injective e)
  ended c c' n tail (inr (f, e, _)) = absurd (cc e)

  answered :
      (e : Envelope M) (c : Connection) (s : S) (w : Writer) (k : FcpResult Connection)
      → (answer app j e c s w).0 ≡ k
      → Sent app j e.id (record c { incoming_sequence = e.seq }) w (k, (answer app j e c s w).2)
  unfolding answer
  answered e c s w k b =
      subst
        (λ z.
          Sent app j e.id (record c { incoming_sequence = e.seq }) w (z, (answer app j e c s w).2))
        b
        (send_all-Sent app j e.id (messages_for app e.id (app.handle e.message s)).0
          (record c { incoming_sequence = e.seq }) w)

  -- Whatever stands on the stream and whatever the application answers, a connection reads requests that
  -- number on without a gap under its version and its nonce, and writes the frames of responses that
  -- number on too, under the same version and nonce, each with the id of its request and in the order of
  -- the requests; only where it ends with an error may the front of one more such frame follow.
  pub serve-Exchange :
      (fuel : ℕ) (r : Reader) (c : Connection) (s s' : S) (w w' : Writer)
      (result : FcpResult (Unit {0}))
      → serve app j fuel r c s w ≡ some (result, s', w')
      → Exchange r c w w' result
  unfolding serve
  serve-Exchange zero r c s s' w w' result h = absurd (cc h)
  serve-Exchange (suc fuel) r c s s' w w' result h = elim (FcpResult-cases (read_envelope j r)) [
    | inr (e, t) ↦ finish (err e, s, w) (rw (t, serve) at h) (nothing r c w (err e))
    | inl ((none, m), t) ↦ finish (ok tt, s, w) (rw (t, serve) at h) (nothing r c w (ok tt))
    | inl ((some e, m), t) ↦ elim (FcpResult-cases (accept app c e)) [
      | inr (f, a) ↦ finish (err f, s, w) (rw (t, a, serve) at h) (nothing r c w (err f))
      | inl (_, a) ↦ elim (FcpResult-cases (answer app j e c s w).0) [
        | inr (f, b) ↦
            finish (err f, (answer app j e c s w).1, (answer app j e c s w).2)
              (rw (t, a, b, serve) at h)
              (last_round r m c e w _ f t (accept-Follows c e a) (answered e c s w (err f) b))
        | inl (c', b) ↦
            let sent = answered e c s w (ok c') b in
            let (full, next) =
              ended (record c { incoming_sequence = e.seq }) c' sent.last sent.tail sent.ends in
            let later =
              serve-Exchange fuel m c' (answer app j e c s w).1 s' (answer app j e c s w).2 w'
                result (rw (t, a, b, serve) at h) in
            round r m c e w _ w' sent.last result (ok c') t (accept-Follows c e a) sent full refl
              (subst (λ z. Exchange m z (answer app j e c s w).2 w' result) next later)
      ]
    ]
  ]
    where
      finish :
          (z : Served (Unit {0}) S)
          → some z ≡ some (result, s', w')
          → Exchange r c w z.2 z.0
          → Exchange r c w w' result
      finish z e x = subst (λ (y : Served (Unit {0}) S). Exchange r c w y.2 y.0) (inside e) x
        where
          inside : {a b : Served (Unit {0}) S} → some a ≡ some b → a ≡ b
          inside e = cc
