-- ===== src/Server/Gate/Agrees.antt =====
-- The gate of src/server/listener.rs against the gate of src/server/routed_listener.rs.
use echomesh_relay.Prelude.{
  ℕ, suc, ◌+◌, ◌-◌, ◌≤◌, ◌<◌, min, ◌≡◌, refl, sym, ap, ◌∙◌, subst, inl, inr, Bool, true, false,
  ◌||◌, some, ◌++◌, arith, ltb, leb, ◌==◌, if◌then◌else◌, lt→ltb, le→not_ltb, length, length-append,
  take, drop, take-append-drop, length-take_of_le, length-drop, take_more, drop_more, Bytes,
  ByteBuf,
}
use mathlib.Core.Option
use echomesh_relay.Protocol.Messages.ServerToClient.{byte_at, Utf8}
use echomesh_relay.Transport.Tokens.{ParsedClientHello, validate}
use echomesh_relay.Transport.Hello.{ClientHelloStatus, parse_client_hello, total_len}
use echomesh_relay.Transport.Hello.Total.{parse_client_hello_total}
use echomesh_relay.Transport.Hello.Stable.{
  need_more_data_bounds, need_more_data_cases, complete_length, complete_header, header_waits,
  total_len-append, byte_at-append,
}
use echomesh_relay.Relay.Gate as Routed
use echomesh_relay.Relay.Gate.{
  Outcome, Verdict, authenticated, Listener, dev_mode, admit, judge, authenticate,
}
use echomesh_relay.Relay.Gate.Admits.{Proxied, Served, Settled, handle_connection_lem}
use echomesh_relay.Server.Gate
use echomesh_relay.Server.Gate.{validate_client, judge_again, judge_first}

module _ ⦃b : ByteBuf⦄ ⦃u : Utf8⦄ where
  -- A record that is there as a whole is judged in the same way by the last round of either.
  same_last :
      (l : Listener) (fuel : ℕ) (i s : Bytes)
      → 5 ≤ length i
      → total_len i ≤ length i
      → judge_again l i s (parse_client_hello i) ≡ authenticate l (suc fuel) i s
  unfolding authenticate
  same_last l fuel i s five whole =
      let (st, e) = parse_client_hello_total i in rw e (by_status st e)
    where
      by_status :
          (st : ClientHelloStatus)
          → parse_client_hello i ≡ some st
          → judge_again l i s (some st) ≡ judge l (authenticate l fuel) i s (some st)
      by_status (ClientHelloStatus.complete hello) e =
          unfold judge_again judge validate_client in refl
      by_status (ClientHelloStatus.invalid x) e = unfold judge_again judge in refl
      by_status (ClientHelloStatus.need_more_data n) e = absurd (elim (need_more_data_cases i n e) [
        | inl (short, _) ↦ omega arith
        | inr (_, _, total) ↦ omega (arith, need_more_data_bounds i n e)
      ])

  same_first :
      (l : Listener) (i s : Bytes)
      → 5 ≤ length i
      → total_len i ≤ length (i ++ s)
      → judge_first l i s (parse_client_hello i) ≡ authenticate l 3 i s
  unfolding authenticate
  same_first l i s five there = let (st, e) = parse_client_hello_total i in rw e (by_status st e)
    where
      by_status :
          (st : ClientHelloStatus)
          → parse_client_hello i ≡ some st
          → judge_first l i s (some st) ≡ judge l (authenticate l 2) i s (some st)
      by_status (ClientHelloStatus.complete hello) e =
          unfold judge_first judge validate_client in refl
      by_status (ClientHelloStatus.invalid x) e = unfold judge_first judge in refl
      by_status (ClientHelloStatus.need_more_data n) e = elim (need_more_data_cases i n e) [
        | inl (short, _) ↦ absurd (omega arith)
        | inr (_, _, total) ↦
            let (more, small) = need_more_data_bounds i n e in
            let size = length-append i s in
            let k = n - length i in
            let bounded : min k 4096 ≡ k = omega arith in
            let needed : ltb 0 k ≡ true = lt→ltb 0 k (omega arith) in
            let there' : ltb (length s) k ≡ false = le→not_ltb (length s) k (omega arith) in
            let within : ltb 4096 n ≡ false = le→not_ltb 4096 n small in
            let open_end : leb n (length i) ≡ false = ground arith in
            let i' : Bytes = i ++ take k s in
            let longer : length i' ≡ n =
              omega (arith, length-append i (take k s), length-take_of_le k s (omega arith)) in
            let total' : total_len i' ≡ n = total_len-append i (take k s) five ∙ sym total in
            let second = same_last l 1 i' (drop k s) (omega arith) (omega arith) in
            let first_side : judge_first l i s (some (ClientHelloStatus.need_more_data n))
                ≡ judge_again l i' (drop k s) (parse_client_hello i') =
              unfold judge_first in rw (bounded, needed, there') refl in
            let routed_side : judge l (authenticate l 2) i s
                  (some (ClientHelloStatus.need_more_data n))
                ≡ authenticate l 2 i' (drop k s) =
              unfold judge in rw (within, open_end, there') refl in
            first_side ∙ second ∙ sym routed_side
      ]

  -- Where the first read gives the record's header and the client sends the record that it
  -- announces, the two listeners do the same with a TLS connection.
  pub same_gates :
      (l : Listener) (n : ℕ) (sent : Bytes)
      → 5 ≤ n
      → n ≤ length sent
      → byte_at 0 sent ≡ 22
      → total_len sent ≤ length sent
      → Gate.handle_connection l n sent ≡ Routed.handle_connection l n sent
  unfolding Gate.handle_connection Routed.handle_connection
  same_gates l n sent five le kind whole =
      let i : Bytes = take n sent in
      let s : Bytes = drop n sent in
      let parts = take-append-drop n sent in
      let read : length i ≡ n = length-take_of_le n sent le in
      let some_read : (n == 0) ≡ false = ground arith in
      let first : byte_at 0 i ≡ 22 =
        sym (byte_at-append 0 i s (omega arith)) ∙ ap (byte_at 0) parts ∙ kind in
      let total : total_len sent ≡ total_len i =
        ap total_len (sym parts) ∙ total_len-append i s (omega arith) in
      rw (some_read, first)
        (ap (Option.map admit) (same_first l i s (omega arith) (rw (← total, parts) whole)))

  -- A ClientHello that is accepted, of which the first read gives fewer bytes than the record's
  -- header has: the routed listener serves it, and this one reads up to the header's end, does not
  -- read on, and sends the client to the fallback target.
  pub short_read_refused :
      (l : Listener) (n : ℕ) (sent : Bytes) (hello : ParsedClientHello)
      → 0 < n
      → n < 5
      → parse_client_hello sent ≡ some (ClientHelloStatus.complete hello)
      → (dev_mode l || validate l.validator hello) ≡ true
      → (Gate.handle_connection l n sent ≡ some (Outcome.fallback (take 5 sent) (drop 5 sent)))
        × ((out : Outcome) × (Routed.handle_connection l n sent ≡ some out)
            × Served (drop (total_len sent) sent) out)
  short_read_refused l n sent hello pos short e accepted =
      let (five, whole) = complete_length sent hello e in
      let (kind, small, body) = complete_header sent hello e in
      let (out, runs, settled) = handle_connection_lem l n sent pos (omega arith) kind in
      let by_status : Settled l sent (some (ClientHelloStatus.complete hello)) out =
        subst (λ st. Settled l sent st out) e settled in
      let served =
        subst {A = Bool}
          (λ t. if t then Served (drop (total_len sent) sent) out else Proxied sent out) accepted
          by_status in
      (refused, (out, runs, served))
    where
      refused :
          Gate.handle_connection l n sent ≡ some (Outcome.fallback (take 5 sent) (drop 5 sent))
      refused =
          let i : Bytes = take n sent in
          let k = 5 - n in
          let (five, whole) = complete_length sent hello e in
          let (kind, small, body) = complete_header sent hello e in
          let read : length i ≡ n = length-take_of_le n sent (omega arith) in
          let some_read : (n == 0) ≡ false = ground arith in
          let parts = take-append-drop n sent in
          let first : byte_at 0 i ≡ 22 =
            sym (byte_at-append 0 i (drop n sent) (omega arith)) ∙ ap (byte_at 0) parts ∙ kind in
          let waits : parse_client_hello i ≡ some (ClientHelloStatus.need_more_data 5) =
            unfold parse_client_hello in rw (lt→ltb (length i) 5 (omega arith)) refl in
          let bounded : min (5 - length i) 4096 ≡ k = omega arith in
          let needed : ltb 0 k ≡ true = lt→ltb 0 k (omega arith) in
          let there : ltb (length (drop n sent)) k ≡ false =
            le→not_ltb (length (drop n sent)) k (omega (arith, length-drop n sent)) in
          let sum : n + k ≡ 5 = omega arith in
          let front : i ++ take k (drop n sent) ≡ take 5 sent =
            take_more n k sent ∙ ap (λ m. take m sent) sum in
          let rear : drop k (drop n sent) ≡ drop 5 sent =
            drop_more n k sent ∙ ap (λ m. drop m sent) sum in
          unfold Gate.handle_connection judge_first judge_again admit in
          rw
            (
              some_read,
              first,
              waits,
              bounded,
              needed,
              there,
              front,
              rear,
              header_waits sent hello e,
            )
            refl
