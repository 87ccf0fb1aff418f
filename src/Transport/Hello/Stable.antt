-- ===== src/Transport/Hello/Stable.antt =====
-- `parse_client_hello` of src/transport/obfuscation.rs on bytes that arrive in pieces.
use echomesh_relay.Prelude.{
  ℕ, zero, suc, ◌+◌, ◌≤◌, ◌<◌, ◌≡◌, refl, sym, ap, ◌∙◌, ◌≢◌, ◌⊎◌, inl, inr, ◌&&◌, some, [], ◌∷◌,
  ◌++◌, append-nil, arith, ltb, leb, ◌==◌, ltb→lt, lt→ltb, le→not_ltb, not_ltb→le, Bool-cases,
  length, length-append, take, drop, take-append-drop, length-take, length-take_of_le,
  take-append_of_le, drop_all, Bytes, ByteBuf, Result, ok, err,
}
use echomesh_relay.Protocol.Messages.ServerToClient.{Utf8, byte_at}
use echomesh_relay.Transport.Tokens.{ParsedClientHello}
use echomesh_relay.Transport.Hello.{
  total_len, ClientHelloStatus, max_client_hello_size, parse_body, Stop, status, read_handshake,
  parse_client_hello,
}
use echomesh_relay.Transport.Hello.Wire.{ClientHello, hello_wire, IsValid}
use echomesh_relay.Transport.Hello.Parsed.{length-hello_wire, total_len-hello_wire}

-- The status is a decision: more bytes are not asked for.
abbrev pub Decides : ClientHelloStatus → Type 0
Decides st = (n : ℕ) → st ≢ ClientHelloStatus.need_more_data n

pub byte_at-append : (i : ℕ) (s t : Bytes) → i < length s → byte_at i (s ++ t) ≡ byte_at i s
unfolding byte_at drop
byte_at-append i [] t h = absurd (omega arith)
byte_at-append zero (x ∷ s) t h = refl
byte_at-append (suc i) (x ∷ s) t h = byte_at-append i s t (omega arith)

pub total_len-append : (s t : Bytes) → 5 ≤ length s → total_len (s ++ t) ≡ total_len s
total_len-append s t h =
    rw (byte_at-append 3 s t (omega arith), byte_at-append 4 s t (omega arith)) refl

module _ ⦃b : ByteBuf⦄ ⦃u : Utf8⦄ where
  waits : (r : Result Stop _) (n : ℕ) → status r ≢ some (ClientHelloStatus.need_more_data n)
  unfolding status
  waits (ok hello) n e = cc
  waits (err (Stop.refused x)) n e = cc
  waits (err Stop.out_of_fuel) n e = cc

  -- What asks for more is shorter than what it asks for, which is within the limit.
  pub need_more_data_bounds :
      (s : Bytes) (n : ℕ)
      → parse_client_hello s ≡ some (ClientHelloStatus.need_more_data n)
      → (length s < n) × (n ≤ max_client_hello_size)
  unfolding parse_client_hello
  need_more_data_bounds s n e =
      let no = waits (parse_body (drop 5 (take (total_len s) s))) n in ground (arith, no)

  -- What it asks for is the header, or the record that the header announces.
  pub need_more_data_cases :
      (s : Bytes) (n : ℕ)
      → parse_client_hello s ≡ some (ClientHelloStatus.need_more_data n)
      → ((length s < 5) × (n ≡ 5)) ⊎ ((5 ≤ length s) × (byte_at 0 s ≡ 22) × (n ≡ total_len s))
  unfolding parse_client_hello
  need_more_data_cases s n e =
      let no = waits (parse_body (drop 5 (take (total_len s) s))) n in ground (arith, no)

  -- What is read completely is there.
  pub complete_length :
      (s : Bytes) (hello : ParsedClientHello)
      → parse_client_hello s ≡ some (ClientHelloStatus.complete hello)
      → (5 ≤ length s) × (total_len s ≤ length s)
  unfolding parse_client_hello
  complete_length s hello e = ground arith

  complete_status :
      (s : Bytes) (hello : ParsedClientHello)
      → parse_client_hello s ≡ some (ClientHelloStatus.complete hello)
      → status (parse_body (drop 5 (take (total_len s) s)))
        ≡ some (ClientHelloStatus.complete hello)
  unfolding parse_client_hello
  complete_status s hello e = ground arith

  -- A record without a body is not a ClientHello.
  empty_body :
      (hello : ParsedClientHello) → status (parse_body []) ≢ some (ClientHelloStatus.complete hello)
  unfolding status parse_body read_handshake
  empty_body hello e = cc e

  pub complete_header :
      (s : Bytes) (hello : ParsedClientHello)
      → parse_client_hello s ≡ some (ClientHelloStatus.complete hello)
      → (byte_at 0 s ≡ 22) × (total_len s ≤ max_client_hello_size) × (5 < total_len s)
  unfolding parse_client_hello
  complete_header s hello e = (ground arith, ground arith, body (total_len s) refl)
    where
      body : (n : ℕ) → total_len s ≡ n → 5 < n
      body n t = elim (Bool-cases (ltb 5 n)) [
        | inl more ↦ ltb→lt 5 n more
        | inr less ↦
            let none_left : drop 5 (take (total_len s) s) ≡ [] =
              drop_all 5 (take (total_len s) s)
                (omega (arith, length-take (total_len s) s, not_ltb→le 5 n less)) in
            absurd (
              empty_body hello
                (ap (λ t. status (parse_body t)) (sym none_left) ∙ complete_status s hello e))
      ]

  -- Of a record that is read completely, the header alone asks for the whole.
  pub header_waits :
      (s : Bytes) (hello : ParsedClientHello)
      → parse_client_hello s ≡ some (ClientHelloStatus.complete hello)
      → parse_client_hello (take 5 s) ≡ some (ClientHelloStatus.need_more_data (total_len s))
  header_waits s hello e =
      let (kind, small, body) = complete_header s hello e in
      let (five, whole) = complete_length s hello e in
      let i : Bytes = take 5 s in
      let parts = take-append-drop 5 s in
      let len : length i ≡ 5 = length-take_of_le 5 s five in
      let total : total_len i ≡ total_len s =
        sym (total_len-append i (drop 5 s) (omega arith)) ∙ ap total_len parts in
      let first : byte_at 0 i ≡ 22 =
        sym (byte_at-append 0 i (drop 5 s) (omega arith)) ∙ ap (byte_at 0) parts ∙ kind in
      unfold parse_client_hello in
      rw
        (
          le→not_ltb (length i) 5 (omega arith),
          first,
          total,
          le→not_ltb 4096 (total_len s) small,
          lt→ltb (length i) (total_len s) (omega arith),
        )
        refl

  -- Enough of the record is there for a decision, or a decision does not need it.
  same_decision :
      (s t : Bytes)
      → 5 ≤ length s
      → (total_len s ≤ length s) ⊎ (byte_at 0 s ≢ 22) ⊎ (4096 < total_len s)
      → parse_client_hello (s ++ t) ≡ parse_client_hello s
  unfolding parse_client_hello
  same_decision s t long enough =
      let n = total_len s in
      let size = length-append s t in
      let front = take-append_of_le n s t in
      rw
        (
          byte_at-append 0 s t (omega arith),
          byte_at-append 3 s t (omega arith),
          byte_at-append 4 s t (omega arith),
        )
        (ground (arith, size, front))

  enough_or_waits :
      (s : Bytes)
      → ((5 ≤ length s) × ((total_len s ≤ length s) ⊎ (byte_at 0 s ≢ 22) ⊎ (4096 < total_len s)))
        ⊎ ((n : ℕ) × (n ≤ 5 + total_len s)
            × (parse_client_hello s ≡ some (ClientHelloStatus.need_more_data n)))
  unfolding parse_client_hello
  enough_or_waits s = elim (Bool-cases (ltb (length s) 5)) [
    | inl short ↦ inr (5, omega arith, rw short)
    | inr long ↦
        elim (Bool-cases
          (ltb (length s) (total_len s) && leb (total_len s) 4096 && (byte_at 0 s == 22))) [
            | inl open_end ↦ inr (total_len s, omega arith, ground arith)
            | inr enough ↦ inl (ground arith, ground arith)
          ]
  ]

  -- Once `parse_client_hello` has accepted or refused what arrived, the bytes that arrive later do
  -- not change its status.
  pub parse_client_hello_stable :
      (s t : Bytes) (st : ClientHelloStatus)
      → parse_client_hello s ≡ some st
      → Decides st
      → parse_client_hello (s ++ t) ≡ some st
  parse_client_hello_stable s t st e d = elim (enough_or_waits s) [
    | inl (long, enough) ↦ same_decision s t long enough ∙ e
    | inr (n, _, w) ↦ absurd (d n (cc))
  ]

  -- Of a well-formed ClientHello that has not arrived whole, `parse_client_hello` asks for more: at
  -- least one byte, and no more than the record has.
  pub prefix_waits :
      (h : ClientHello) (p q : Bytes)
      → IsValid h
      → hello_wire h ≡ p ++ q
      → 0 < length q
      → (n : ℕ) × (parse_client_hello p ≡ some (ClientHelloStatus.need_more_data n))
        × (length p < n)
        × (n ≤ length (hello_wire h))
  unfolding parse_client_hello
  prefix_waits h p q v e pos =
      let n = length (hello_wire h) in
      let size = length-hello_wire h in
      let parts = length-append p q in
      let whole = ap length e in
      elim (Bool-cases (ltb (length p) 5)) [
        | inl short ↦ (5, rw short, ltb→lt (length p) 5 short, omega arith)
        | inr long ↦
            let five : 5 ≤ length p = not_ltb→le (length p) 5 long in
            let kind : byte_at 0 p ≡ 22 =
              sym (byte_at-append 0 p q (omega arith))
              ∙ ap (byte_at 0) (sym e)
              ∙ unfold byte_at drop hello_wire in refl in
            let total : total_len p ≡ n =
              sym (total_len-append p q five)
              ∙ ap total_len (sym e ∙ sym (append-nil (hello_wire h)))
              ∙ total_len-hello_wire h [] v in
            (
              n,
              rw
                  (
                    long,
                    kind,
                    total,
                    le→not_ltb 4096 n v.record_fits,
                    lt→ltb (length p) n (omega arith),
                  )
                  refl,
              omega arith,
              omega arith,
            )
      ]

  -- A record that is still not whole is waited for.
  pub still_waits :
      (s t : Bytes) (n : ℕ)
      → parse_client_hello s ≡ some (ClientHelloStatus.need_more_data n)
      → length (s ++ t) < n
      → (m : ℕ) × (parse_client_hello (s ++ t) ≡ some (ClientHelloStatus.need_more_data m))
  still_waits s t n e h = elim (enough_or_waits (s ++ t)) [
    | inr (m, _, w) ↦ (m, w)
    | inl (long, enough) ↦ absurd (not_enough long enough (need_more_data_cases s n e))
  ]
    where
      not_enough :
          5 ≤ length (s ++ t)
          → (total_len (s ++ t) ≤ length (s ++ t))
            ⊎ (byte_at 0 (s ++ t) ≢ 22)
            ⊎ (4096 < total_len (s ++ t))
          → ((length s < 5) × (n ≡ 5)) ⊎ ((5 ≤ length s) × (byte_at 0 s ≡ 22) × (n ≡ total_len s))
          → ⊥
      not_enough long enough (inl (short, five)) = omega arith
      not_enough long enough (inr (five, kind, total)) =
          let (_, le) = need_more_data_bounds s n e in
          let same = total_len-append s t five in
          let first = byte_at-append 0 s t (omega arith) in
          elim enough [
            | inl whole ↦ omega arith
            | inr (inl other) ↦ other (first ∙ kind)
            | inr (inr large) ↦ omega arith
          ]
