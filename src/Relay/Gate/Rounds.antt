-- ===== src/Relay/Gate/Rounds.antt =====
-- The loop of `handle_connection` in src/server/routed_listener.rs: whatever the pieces in which a
-- ClientHello arrives, it is judged as a whole.
use echomesh_relay.Prelude.{
  ℕ, suc, ◌-◌, ◌≤◌, ◌<◌, ◌≡◌, refl, sym, ap, ◌∙◌, inl, inr, true, false, ◌||◌, Option, none, some,
  ◌++◌, append_assoc, arith, ltb, leb, ltb→lt, le→not_ltb, not_ltb→le, Bool-cases, length,
  length-append, take, drop, take-append-drop, length-take_of_le, Bytes, ByteBuf,
}
use echomesh_relay.Protocol.Messages.ServerToClient.{Utf8}
use echomesh_relay.Transport.Tokens.{validate}
use echomesh_relay.Transport.Hello.{ClientHelloStatus, parse_client_hello, total_len}
use echomesh_relay.Transport.Hello.Total.{parse_client_hello_total}
use echomesh_relay.Transport.Hello.Stable.{
  Decides, need_more_data_bounds, need_more_data_cases, complete_length, still_waits,
  parse_client_hello_stable, total_len-append,
}
use echomesh_relay.Relay.Gate.{
  Verdict, lost, authenticated, Listener, dev_mode, judge, authenticate,
}

module _ ⦃b : ByteBuf⦄ ⦃u : Utf8⦄ (l : Listener) (sent : Bytes) where
  -- What was read, and what is still to be read.
  abbrev Parts : Bytes → Bytes → Type 0
  Parts initial stream = initial ++ stream ≡ sent

  -- The verdict that the status of all that is sent asks for.
  abbrev pub Judged : Option ClientHelloStatus → Verdict → Type 0
  Judged none v = ⊥
  Judged (some (ClientHelloStatus.complete hello)) v =
      (initial : Bytes) × (stream : Bytes) × Parts initial stream
      × (total_len sent ≤ length initial)
      × (v
          ≡ authenticated (dev_mode l || validate l.validator hello) initial stream
              (total_len sent))
  Judged (some (ClientHelloStatus.need_more_data n)) v = v ≡ lost
  Judged (some (ClientHelloStatus.invalid e)) v =
      (initial : Bytes) × (stream : Bytes) × Parts initial stream
      × (v ≡ authenticated false initial stream 0)

  abbrev pub Reaches : Option Verdict → Type 0
  Reaches o = (v : Verdict) × (o ≡ some v) × Judged (parse_client_hello sent) v

  -- A decision on what was read is the decision on all of it.
  decided :
      (i s : Bytes) (st : ClientHelloStatus)
      → Parts i s
      → parse_client_hello i ≡ some st
      → Decides st
      → parse_client_hello sent ≡ some st
  decided i s st p e d = sym (ap parse_client_hello p) ∙ parse_client_hello_stable i s st e d

  -- The next round's input: as long as this one asked for.
  abbrev Grown : Bytes → Bytes → Type 0
  Grown i i' =
      (r : Bytes) × (i' ≡ i ++ r)
      × (parse_client_hello i ≡ some (ClientHelloStatus.need_more_data (length i')))

  round :
      (fuel : ℕ) (i s : Bytes)
      → Parts i s
      → ((i' s' : Bytes) → Parts i' s' → Grown i i' → Reaches (authenticate l fuel i' s'))
      → Reaches (authenticate l (suc fuel) i s)
  round fuel i s p next =
      let (st, e) = parse_client_hello_total i in unfold authenticate in rw e (judged st e)
    where
      judged :
          (st : ClientHelloStatus)
          → parse_client_hello i ≡ some st
          → Reaches (judge l (authenticate l fuel) i s (some st))
      judged (ClientHelloStatus.complete hello) e =
          let (five, whole) = complete_length i hello e in
          let same : total_len sent ≡ total_len i =
            ap total_len (sym p) ∙ total_len-append i s five in
          let all = decided i s (ClientHelloStatus.complete hello) p e (λ n q. cc) in
          let full : leb 5 (length i) ≡ true = ground arith in
          (
            authenticated (dev_mode l || validate l.validator hello) i s (total_len sent),
            unfold judge in rw (full, same) refl,
            rw all (i, s, p, rw same whole, refl),
          )
      judged (ClientHelloStatus.invalid x) e =
          let all = decided i s (ClientHelloStatus.invalid x) p e (λ n q. cc) in
          (authenticated false i s 0, unfold judge in refl, rw all (i, s, p, refl))
      judged (ClientHelloStatus.need_more_data n) e =
          let (short, small) = need_more_data_bounds i n e in
          let within : ltb 4096 n ≡ false = le→not_ltb 4096 n small in
          let open_end : leb n (length i) ≡ false = ground arith in
          let size = length-append i s in
          elim (Bool-cases (ltb (length s) (n - length i))) [
            | inl ended ↦
                let less : length (i ++ s) < n = omega (arith, ltb→lt _ _ ended) in
                let (m, w) = still_waits i s n e less in
                let all : parse_client_hello sent ≡ some (ClientHelloStatus.need_more_data m) =
                  sym (ap parse_client_hello p) ∙ w in
                (lost, unfold judge in rw (within, open_end, ended) refl, rw all refl)
            | inr there ↦
                let k = n - length i in
                let le : k ≤ length s = not_ltb→le (length s) k there in
                let r = take k s in
                let grown : length (i ++ r) ≡ n =
                  omega (arith, length-append i r, length-take_of_le k s le) in
                let (v, runs, fits) =
                  next (i ++ r) (drop k s)
                    (append_assoc i r (drop k s) ∙ ap (λ t. i ++ t) (take-append-drop k s) ∙ p)
                    (r, refl, rw grown e) in
                (v, unfold judge in rw (within, open_end, there) runs, fits)
          ]

  -- Once the record that the header announces is there, one round decides.
  last_round :
      (fuel : ℕ) (i s : Bytes)
      → Parts i s
      → 5 ≤ length i
      → total_len i ≤ length i
      → Reaches (authenticate l (suc fuel) i s)
  last_round fuel i s p five whole = round fuel i s p λ i' s' p' (r, g, w).
      absurd (elim (need_more_data_cases i (length i') w) [
        | inl (short, _) ↦ omega arith
        | inr (_, _, n) ↦ omega (arith, need_more_data_bounds i (length i') w)
      ])

  second_round :
      (fuel : ℕ) (i s : Bytes)
      → Parts i s
      → 5 ≤ length i
      → Reaches (authenticate l (suc (suc fuel)) i s)
  second_round fuel i s p five = round (suc fuel) i s p λ i' s' p' (r, g, w).
      elim (need_more_data_cases i (length i') w) [
        | inl (short, _) ↦ absurd (omega arith)
        | inr (_, _, n) ↦
            let same : total_len i' ≡ total_len i = ap total_len g ∙ total_len-append i r five in
            last_round fuel i' s' p' (omega arith) (omega arith)
      ]

  -- Three rounds of the loop are enough, and its verdict is the one for all that the client sends:
  -- a whole ClientHello is judged by the validator, anything else is refused, and a ClientHello that
  -- is never completed fails.
  pub authenticate_judges : (i s : Bytes) → i ++ s ≡ sent → Reaches (authenticate l 3 i s)
  authenticate_judges i s p = round 2 i s p λ i' s' p' (r, g, w).
      second_round 0 i' s' p' (elim (need_more_data_cases i (length i') w) [
        | inl (_, five) ↦ omega arith
        | inr (five, _, _) ↦ omega (arith, need_more_data_bounds i (length i') w)
      ])
