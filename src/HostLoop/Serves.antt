-- ===== src/HostLoop/Serves.antt =====
-- What a connection has read and written.
use fursoy_vault.Prelude.{
  Bytes, Uuid, ℕ, ◌+◌, checked_suc, false, ◌||◌, ◌==◌, ltb, some, List, [], ◌∷◌, ◌++◌, ◌≡◌, ◌⊎◌,
  inl, inr, refl, arith, ap, sym, ◌∙◌, length, take, drop, take-append-drop, le_bytes, All,
  Bool-cases, Option-cases,
}
use mathlib.Core.List.{append_assoc, append-nil}
use mathlib.Core.Path.{subst}
use fursoy_vault.Error.{FcpError, FcpResult, FcpResult-cases, ok, err}
use fursoy_vault.Protocol.Envelope.{Envelope}
use fursoy_vault.Protocol.Framing.{
  Writer, EnvelopeJson, max_frame_bytes, write_all, write_envelope, then_write,
}
use fursoy_vault.HostLoop.{App, Connection, send_all, response}

module _ {M : Type 0} (j : EnvelopeJson M) where
  -- A frame: four length bytes, and the body.
  abbrev pub frame : Bytes → Bytes
  frame body = le_bytes 4 (length body) ++ body

  -- The bytes are the frames of the envelopes.
  abbrev pub Frames : List (Envelope M) → Bytes → Type 0
  Frames [] bytes = bytes ≡ []
  Frames (e ∷ es) bytes =
      (body : Bytes) × (rest : Bytes) × (j.encode e ≡ ok body)
      × (bytes ≡ frame body ++ rest)
      × Frames es rest

  -- Nothing, or the front of the frame of an envelope that is like `P`.
  abbrev pub IsCut : (Envelope M → Type 0) → Bytes → Type 0
  IsCut P tail =
      (tail ≡ [])
      ⊎ ((e : Envelope M) × (body : Bytes) × (rest : Bytes) × P e
          × (j.encode e ≡ ok body)
          × (frame body ≡ tail ++ rest))

  abbrev Wrote : Envelope M → Writer → FcpResult (Unit {0}) × Writer → Type 0
  Wrote e w r =
      ((body : Bytes) × (r.0 ≡ ok tt)
        × (j.encode e ≡ ok body)
        × (r.1.written ≡ w.written ++ frame body))
      ⊎ ((f : FcpError) × (tail : Bytes) × (r.0 ≡ err f)
          × (r.1.written ≡ w.written ++ tail)
          × ((tail ≡ [])
              ⊎ ((body : Bytes) × (rest : Bytes) × (j.encode e ≡ ok body)
                  × (frame body ≡ tail ++ rest))))

  write_all-cases :
      (bytes : Bytes) (w : Writer)
      → ((write_all bytes w).0 ≡ ok tt) × ((write_all bytes w).1.written ≡ w.written ++ bytes)
        ⊎ ((f : FcpError) × (front : Bytes) × (rest : Bytes) × ((write_all bytes w).0 ≡ err f)
            × ((write_all bytes w).1.written ≡ w.written ++ front)
            × (bytes ≡ front ++ rest))
  unfolding write_all
  write_all-cases bytes w = elim (Bool-cases (ltb w.room (length bytes))) [
    | inl t ↦
        rw (t, write_all)
          (inr (
            _,
            take w.room bytes,
            drop w.room bytes,
            refl,
            refl,
            sym (take-append-drop w.room bytes),
          ))
    | inr t ↦ rw (t, write_all) (inl (refl, refl))
  ]

  abbrev Both : Bytes → Writer → FcpResult (Unit {0}) × Writer → Type 0
  Both bytes w r =
      ((r.0 ≡ ok tt) × (r.1.written ≡ w.written ++ bytes))
      ⊎ ((f : FcpError) × (front : Bytes) × (rest : Bytes) × (r.0 ≡ err f)
          × (r.1.written ≡ w.written ++ front)
          × (bytes ≡ front ++ rest))

  two_writes :
      (h body : Bytes) (w : Writer) → Both (h ++ body) w (then_write j body (write_all h w))
  two_writes h body w = after (write_all h w) (write_all-cases h w)
    where
      second :
          (w' : Writer)
          → w'.written ≡ w.written ++ h
          → Both body w' (write_all body w')
          → Both (h ++ body) w (write_all body w')
      second w' e (inl (r, k)) = inl (r, k ∙ ap (λ z. z ++ body) e ∙ append_assoc w.written h body)
      second w' e (inr (f, front, rest, r, k, q)) = inr (
        f,
        h ++ front,
        rest,
        r,
        k ∙ ap (λ z. z ++ front) e ∙ append_assoc w.written h front,
        ap (◌++◌ h) q ∙ sym (append_assoc h front rest),
      )

      after :
          (r : FcpResult (Unit {0}) × Writer)
          → Both h w r
          → Both (h ++ body) w (then_write j body r)
      after (ok _, w') (inl (_, e)) = second w' e (write_all-cases body w')
      after (ok _, w') (inr (f, _, _, r, _, _)) = absurd (cc r)
      after (err f, w') (inl (r, _)) = absurd (cc r)
      after (err f, w') (inr (g, front, rest, r, e, q)) =
          inr (g, front, rest ++ body, r, e, ap (λ z. z ++ body) q ∙ append_assoc front rest body)

  write_envelope-Wrote : (e : Envelope M) (w : Writer) → Wrote e w (write_envelope j e w)
  unfolding write_envelope
  write_envelope-Wrote e w = elim (FcpResult-cases (j.encode e)) [
    | inr (f, t) ↦ rw (t, write_envelope) (inr (f, [], refl, sym (append-nil w.written), inl refl))
    | inl (body, t) ↦ elim (Bool-cases (length body == 0 || ltb max_frame_bytes (length body))) [
      | inl b ↦ rw (t, b, write_envelope) (inr (_, [], refl, sym (append-nil w.written), inl refl))
      | inr b ↦
          subst (Wrote e w) (sym (both body t b))
            (written body t (two_writes (le_bytes 4 (length body)) body w))
    ]
  ]
    where
      both :
          (body : Bytes)
          → j.encode e ≡ ok body
          → (length body == 0 || ltb max_frame_bytes (length body)) ≡ false
          → write_envelope j e w ≡ then_write j body (write_all (le_bytes 4 (length body)) w)
      both body t b = rw (t, b, write_envelope) refl

      written :
          (body : Bytes)
          → j.encode e ≡ ok body
          → Both (frame body) w (then_write j body (write_all (le_bytes 4 (length body)) w))
          → Wrote e w (then_write j body (write_all (le_bytes 4 (length body)) w))
      written body t (inl (r, k)) = inl (body, r, t, k)
      written body t (inr (f, front, rest, r, k, q)) = inr (f, front, r, k, inr (body, rest, t, q))

-- The envelopes of one direction: the version and the nonce of the connection, and the sequences from
-- the one after n on.
module _ {M : Type 0} (version : ℕ) (nonce : Bytes) where
  abbrev pub Follows : ℕ → Envelope M → Type 0
  Follows n e = (e.v ≡ version) × (e.conn_nonce ≡ nonce) × (e.seq ≡ n + 1)

  abbrev pub Numbered : ℕ → List (Envelope M) → ℕ → Type 0
  Numbered n [] n' = n ≡ n'
  Numbered n (e ∷ es) n' = Follows n e × Numbered (n + 1) es n'

module _ {M S : Type 0} (app : App M S) (j : EnvelopeJson M) where
  abbrev pub EndsWith : Connection → ℕ → Bytes → FcpResult Connection → Type 0
  EndsWith c n tail r =
      ((tail ≡ []) × (r ≡ ok (record c { outgoing_sequence = n })))
      ⊎ ((f : FcpError) × (r ≡ err f) × IsCut j (Follows c.negotiated_version c.nonce n) tail)

  -- What `send_all` has done.
  pub record Sent (id : Uuid) (c : Connection) (w : Writer) (r : FcpResult Connection × Writer)
      : Type 0 where
    pub envelopes : List (Envelope M)
    pub last : ℕ
    pub bytes : Bytes
    pub tail : Bytes
    pub numbered : Numbered c.negotiated_version c.nonce c.outgoing_sequence envelopes last
    pub answering : All (λ (e : Envelope M). e.id ≡ id) envelopes
    pub framed : Frames j envelopes bytes
    pub written : r.1.written ≡ w.written ++ (bytes ++ tail)
    pub ends : EndsWith c last tail r.0

  Sent-none :
      (id : Uuid) (c : Connection) (w : Writer) (r : FcpResult Connection × Writer) (tail : Bytes)
      → r.1.written ≡ w.written ++ tail
      → EndsWith c c.outgoing_sequence tail r.0
      → Sent id c w r
  Sent-none id c w r tail e k = record {
    envelopes = [];
    last = c.outgoing_sequence;
    bytes = [];
    tail = tail;
    numbered = refl;
    answering = tt;
    framed = refl;
    written = e;
    ends = k;
  }

  pub send_all-Sent :
      (id : Uuid) (ms : List M) (c : Connection) (w : Writer)
      → Sent id c w (send_all app j id ms c w)
  unfolding send_all
  send_all-Sent id [] c w =
      Sent-none id c w (ok c, w) [] (sym (append-nil w.written)) (inl (refl, refl))
  send_all-Sent id (m ∷ ms) c w = elim (Option-cases (checked_suc c.outgoing_sequence)) [
    | inl t ↦
        rw (t, send_all)
          (Sent-none id c w _ [] (sym (append-nil w.written)) (inr (_, refl, inl refl)))
    | inr (n, t) ↦
        let e = response app j c id n m in
        let next : n ≡ c.outgoing_sequence + 1 = ground arith in
        elim (write_envelope-Wrote j e w) [
          | inl (body, r, d, k) ↦
              let s =
                send_all-Sent id ms (record c { outgoing_sequence = n }) (write_envelope j e w).1 in
              subst (Sent id c w) (sym (sends n t r)) (sent_cons n next body d k _ s)
          | inr (f, tail, r, k, o) ↦
              subst (Sent id c w) (sym (stops n f t r))
                (Sent-none id c w _ tail k (inr (f, refl, cut n next tail o)))
        ]
  ]
    where
      sends :
          (n : ℕ)
          → checked_suc c.outgoing_sequence ≡ some n
          → (write_envelope j (response app j c id n m) w).0 ≡ ok tt
          → send_all app j id (m ∷ ms) c w
            ≡ send_all app j id ms
                (record c { outgoing_sequence = n })
                (write_envelope j (response app j c id n m) w).1
      sends n t r = rw (t, r, send_all) refl

      stops :
          (n : ℕ) (f : FcpError)
          → checked_suc c.outgoing_sequence ≡ some n
          → (write_envelope j (response app j c id n m) w).0 ≡ err f
          → send_all app j id (m ∷ ms) c w
            ≡ (err f, (write_envelope j (response app j c id n m) w).1)
      stops n f t r = rw (t, r, send_all) refl

      cut :
          (n : ℕ)
          → n ≡ c.outgoing_sequence + 1
          → (tail : Bytes)
          → ((tail ≡ [])
              ⊎ ((body : Bytes) × (rest : Bytes) × (j.encode (response app j c id n m) ≡ ok body)
                  × (frame j body ≡ tail ++ rest)))
          → IsCut j (Follows c.negotiated_version c.nonce c.outgoing_sequence) tail
      cut n next tail (inl e) = inl e
      cut n next tail (inr (body, rest, d, k)) =
          inr (response app j c id n m, body, rest, (refl, refl, next), d, k)

      sent_cons :
          (n : ℕ)
          → n ≡ c.outgoing_sequence + 1
          → (body : Bytes) → j.encode (response app j c id n m) ≡ ok body
          → (write_envelope j (response app j c id n m) w).1.written ≡ w.written ++ frame j body
          → (r : FcpResult Connection × Writer)
          → Sent id
              (record c { outgoing_sequence = n })
              (write_envelope j (response app j c id n m) w).1
              r
          → Sent id c w r
      sent_cons n next body d k r s = record {
        envelopes = response app j c id n m ∷ s.envelopes;
        last = s.last;
        bytes = frame j body ++ s.bytes;
        tail = s.tail;
        numbered = (
          (refl, refl, next),
          subst (λ i. Numbered c.negotiated_version c.nonce i s.envelopes s.last) next s.numbered,
        );
        answering = (refl, s.answering);
        framed = (body, s.bytes, d, refl, s.framed);
        written =
            s.written
            ∙ ap (λ z. z ++ (s.bytes ++ s.tail)) k
            ∙ append_assoc w.written (frame j body) (s.bytes ++ s.tail)
            ∙ ap (◌++◌ w.written) (sym (append_assoc (frame j body) s.bytes s.tail));
        ends = s.ends;
      }
