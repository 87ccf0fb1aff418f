-- ===== src/Relay/Gate/Admits.antt =====
-- Which connections `handle_connection` of src/server/routed_listener.rs passes on to a session.
use echomesh_relay.Prelude.{
  ℕ, zero, suc, ◌≤◌, ◌<◌, ◌≡◌, refl, sym, ap, ◌∙◌, subst, ◌≢◌, ◌⊎◌, inl, inr, Bool, true, false,
  ◌||◌, Option, none, some, [], ◌++◌, arith, ltb, ◌==◌, if◌then◌else◌, not_ltb→le, Bool-cases,
  length, take, drop, take-append-drop, length-take_of_le, drop-append_of_le, drop_all, Bytes,
  ByteBuf,
}
use echomesh_relay.Protocol.Messages.ServerToClient.{byte_at, Utf8}
use echomesh_relay.Transport.Tokens.{ParsedClientHello, validate}
use echomesh_relay.Transport.Hello.{ClientHelloStatus, parse_client_hello, total_len}
use echomesh_relay.Transport.Hello.Stable.{byte_at-append}
use echomesh_relay.Relay.Gate.{
  Outcome, failed, fallback, session, Verdict, authenticated, Listener, dev_mode, admit, direct,
  handle_connection,
}
use echomesh_relay.Relay.Gate.Rounds.{Judged, authenticate_judges}

module _ ⦃b : ByteBuf⦄ ⦃u : Utf8⦄ where
  -- The connection is proxied, and the target sees all that the client sends.
  abbrev pub Proxied : Bytes → Outcome → Type 0
  Proxied sent out =
      (initial : Bytes) × (stream : Bytes) × (out ≡ fallback initial stream)
      × (initial ++ stream ≡ sent)

  -- A session begins, and its stream is `bytes`.
  abbrev pub Served : Bytes → Outcome → Type 0
  Served bytes out =
      (leftover : Bytes) × (stream : Bytes) × (out ≡ session leftover stream)
      × (leftover ++ stream ≡ bytes)

  abbrev pub Settled : Listener → Bytes → Option ClientHelloStatus → Outcome → Type 0
  Settled l sent none out = ⊥
  Settled l sent (some (ClientHelloStatus.complete hello)) out =
      if dev_mode l || validate l.validator hello
      then Served (drop (total_len sent) sent) out
      else Proxied sent out
  Settled l sent (some (ClientHelloStatus.need_more_data n)) out = out ≡ failed
  Settled l sent (some (ClientHelloStatus.invalid e)) out = Proxied sent out

  settled :
      (l : Listener) (sent : Bytes) (st : Option ClientHelloStatus) (v : Verdict)
      → Judged l sent st v
      → Settled l sent st (admit v)
  settled l sent none v j = j
  settled l sent (some (ClientHelloStatus.need_more_data n)) v j = unfold admit in rw j refl
  settled l sent (some (ClientHelloStatus.invalid e)) v (i, s, p, j) =
      (i, s, unfold admit in rw j refl, p)
  settled l sent (some (ClientHelloStatus.complete hello)) v (i, s, p, whole, j) =
      elim (Bool-cases (dev_mode l || validate l.validator hello)) [
        | inl accepted ↦
            let at_once : v ≡ authenticated true i s (total_len sent) =
              j ∙ ap (λ t. authenticated t i s (total_len sent)) accepted in
            let kept : Bytes =
              if ltb (total_len sent) (length i) then drop (total_len sent) i else [] in
            rw (accepted, at_once) (kept, s, unfold admit in refl, left_over)
        | inr refused ↦
            let at_once : v ≡ authenticated false i s (total_len sent) =
              j ∙ ap (λ t. authenticated t i s (total_len sent)) refused in
            rw (refused, at_once) (i, s, unfold admit in refl, p)
      ]
    where
      left_over :
          (if ltb (total_len sent) (length i) then drop (total_len sent) i else []) ++ s
          ≡ drop (total_len sent) sent
      left_over =
          let c = total_len sent in
          let behind : drop c i ++ s ≡ drop c sent =
            sym (drop-append_of_le c i s whole) ∙ ap (drop c) p in
          elim (Bool-cases (ltb c (length i))) [
            | inl more ↦ rw more behind
            | inr none_left ↦
                rw none_left (
                  ap (λ t. t ++ s) (sym (drop_all c i (not_ltb→le c (length i) none_left)))
                  ∙ behind)
          ]

  -- A first read of any size: a TLS connection is served or proxied as the ClientHello in all that
  -- the client sends says. A ClientHello that the validator accepts, or any where the bypass is on,
  -- begins a session on the bytes behind it; any other goes to the fallback target with every byte;
  -- and one that is never completed fails.
  pub handle_connection_lem :
      (l : Listener) (n : ℕ) (sent : Bytes)
      → 0 < n
      → n ≤ length sent
      → byte_at 0 sent ≡ 22
      → (out : Outcome) × (handle_connection l n sent ≡ some out)
        × Settled l sent (parse_client_hello sent) out
  unfolding handle_connection
  handle_connection_lem l n sent pos le kind =
      let i : Bytes = take n sent in
      let parts = take-append-drop n sent in
      let some_read : (n == 0) ≡ false = ground arith in
      let first : byte_at 0 i ≡ 22 =
        sym (byte_at-append 0 i (drop n sent) (omega (arith, length-take_of_le n sent le)))
        ∙ ap (byte_at 0) parts
        ∙ kind in
      let (v, runs, j) = authenticate_judges l sent i (drop n sent) parts in
      rw (some_read, first, runs) (admit v, refl, settled l sent (parse_client_hello sent) v j)

  -- The first byte that was read is the first that was sent.
  first_byte :
      (n : ℕ) (sent : Bytes) → 0 < n → n ≤ length sent → byte_at 0 (take n sent) ≡ byte_at 0 sent
  first_byte n sent pos le =
      sym
        (byte_at-append 0 (take n sent) (drop n sent) (omega (arith, length-take_of_le n sent le)))
      ∙ ap (byte_at 0) (take-append-drop n sent)

  -- The ClientHello in what is sent is whole and accepted, and the stream is what stands behind it.
  abbrev pub Authorised : Listener → Bytes → Option ClientHelloStatus → Bytes → Type 0
  Authorised l sent st stream =
      (hello : ParsedClientHello) × (st ≡ some (ClientHelloStatus.complete hello))
      × ((dev_mode l || validate l.validator hello) ≡ true)
      × (stream ≡ drop (total_len sent) sent)

  Settled-session :
      (l : Listener) (sent p s : Bytes) (st : Option ClientHelloStatus)
      → Settled l sent st (session p s)
      → Authorised l sent st (p ++ s)
  Settled-session l sent p s none h = absurd h
  Settled-session l sent p s (some (ClientHelloStatus.need_more_data n)) h = absurd (cc h)
  Settled-session l sent p s (some (ClientHelloStatus.invalid x)) (_, _, e, _) = absurd (cc e)
  Settled-session l sent p s (some (ClientHelloStatus.complete hello)) h =
      let (accepted, rest) = pick (dev_mode l || validate l.validator hello) h in
      (hello, refl, accepted, rest)
    where
      pick :
          (t : Bool)
          → (if t
              then Served (drop (total_len sent) sent) (session p s)
              else Proxied sent (session p s))
          → (t ≡ true) × (p ++ s ≡ drop (total_len sent) sent)
      pick true (p', s', e, q) = (refl, cc)
      pick false (_, _, e, _) = absurd (cc e)

  direct-session :
      (l : Listener) (i s leftover stream : Bytes)
      → direct l i s ≡ session leftover stream
      → (l.insecure_no_token ≡ true) × (leftover ≡ i) × (stream ≡ s)
  unfolding direct
  direct-session l i s leftover stream d = ground arith

  plain_connection :
      (l : Listener) (n : ℕ) (sent : Bytes)
      → 0 < n
      → (byte_at 0 (take n sent) == 22) ≡ false
      → handle_connection l n sent ≡ some (direct l (take n sent) (drop n sent))
  unfolding handle_connection
  plain_connection l n sent pos other =
      let some_read : (n == 0) ≡ false = ground arith in rw (some_read, other) refl

  -- A session begins only on a ClientHello that the validator accepts, or any where a bypass is on,
  -- and then reads what stands behind it; or, where tokens are switched off, on a connection that
  -- does not begin with TLS, and then reads all of it.
  pub session-Authorised :
      (l : Listener) (n : ℕ) (sent leftover stream : Bytes)
      → n ≤ length sent
      → handle_connection l n sent ≡ some (session leftover stream)
      → ((l.insecure_no_token ≡ true) × (byte_at 0 sent ≢ 22) × (leftover ++ stream ≡ sent))
        ⊎ Authorised l sent (parse_client_hello sent) (leftover ++ stream)
  session-Authorised l zero sent leftover stream le e = unfold handle_connection in cc e
  session-Authorised l (suc n) sent leftover stream le e =
      let i : Bytes = take (suc n) sent in
      let s : Bytes = drop (suc n) sent in
      let first : byte_at 0 i ≡ byte_at 0 sent = first_byte (suc n) sent (omega arith) le in
      elim (Bool-cases (byte_at 0 sent == 22)) [
        | inl tls ↦
            let (out, runs, h) =
              handle_connection_lem l (suc n) sent (omega arith) le (ground arith) in
            let same : out ≡ session leftover stream = cc in
            inr (
              Settled-session l sent leftover stream (parse_client_hello sent)
                (subst (Settled l sent (parse_client_hello sent)) same h))
        | inr plain ↦
            let other : (byte_at 0 i == 22) ≡ false = ap (λ x. x == 22) first ∙ plain in
            let runs = plain_connection l (suc n) sent (omega arith) other in
            let (off, same, rest) = direct-session l i s leftover stream (cc) in
            inl (
              off,
              λ tls. ground arith,
              ap (λ t. t ++ stream) same ∙ ap (λ t. i ++ t) rest ∙ take-append-drop (suc n) sent,
            )
      ]
