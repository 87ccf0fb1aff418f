-- ===== src/Protocol/Envelope/Canonical.antt =====
-- What a successful `MessageEnvelope::decode` of src/protocol/envelope.rs says of its input.
use echomesh_relay.Prelude.{
  ℕ, ◌≤◌, ◌≡◌, sym, ap, ◌∙◌, subst, ◌++◌, append_assoc, arith, length, take, drop, take-append-drop,
  length-take_of_le, Bytes, to_be_bytes, AreBytes, AreBytes-split, ByteBuf, get_int_split, ok,
}
use echomesh_relay.Protocol.Versioning
use echomesh_relay.Protocol.MessageTypes
use echomesh_relay.Protocol.Envelope.Wire.{IsValid, wire}
use echomesh_relay.Protocol.Envelope.{MessageEnvelope, decode}

behind : (w n : ℕ) {x y : Bytes} → x ≡ y → to_be_bytes w n ++ x ≡ to_be_bytes w n ++ y
behind w n e = ap (λ t. to_be_bytes w n ++ t) e

module _ ⦃b : ByteBuf⦄ where
  -- The reads that `decode` makes, one after the other.
  abbrev after : ℕ → Bytes → Bytes
  after w s = (b.get_int w s).1

  abbrev Reads : Bytes → MessageEnvelope → Type 0
  Reads s e =
      let s1 = after 1 s in
      let s2 = after 1 s1 in
      let s3 = after 2 s2 in
      let s4 = after 8 s3 in
      let s5 = after 8 s4 in
      let s6 = after 8 s5 in
      let s7 = after 2 s6 in
      let n = (b.get_int 2 s6).0 in
      (30 ≤ length s)
      × (Versioning.from_u8 (b.get_int 1 s).0 ≡ ok e.version)
      × (MessageTypes.from_u8 (b.get_int 1 s1).0 ≡ ok e.message_type)
      × (e.flags ≡ (b.get_int 2 s2).0)
      × (e.message_id ≡ (b.get_int 8 s3).0)
      × (e.correlation_id ≡ (b.get_int 8 s4).0)
      × (e.timestamp ≡ (b.get_int 8 s5).0)
      × (n ≤ 1364)
      × (n ≤ length s7)
      × (e.payload ≡ take n s7)

  decode-Reads : (s : Bytes) (e : MessageEnvelope) → decode s ≡ ok e → Reads s e
  unfolding decode
  decode-Reads s e h = ground arith

  -- `decode` accepts only the format of envelopes: bytes that it accepts are the format of the
  -- envelope that it yields, with bytes behind it, and every field of that envelope fits its
  -- width.
  pub decode_canonical :
      (s : Bytes) (e : MessageEnvelope)
      → AreBytes s
      → decode s ≡ ok e
      → (rest : Bytes) × (s ≡ wire e ++ rest) × IsValid e
  decode_canonical s e v h =
      let (h0, version, kind, flags, mid, cid, time, le, fits, payload) = decode-Reads s e h in
      let (p1, f1, l1, v1) = get_int_split 1 s (omega arith) v in
      let s1 = after 1 s in
      let (p2, f2, l2, v2) = get_int_split 1 s1 (omega arith) v1 in
      let s2 = after 1 s1 in
      let (p3, f3, l3, v3) = get_int_split 2 s2 (omega arith) v2 in
      let s3 = after 2 s2 in
      let (p4, f4, l4, v4) = get_int_split 8 s3 (omega arith) v3 in
      let s4 = after 8 s3 in
      let (p5, f5, l5, v5) = get_int_split 8 s4 (omega arith) v4 in
      let s5 = after 8 s4 in
      let (p6, f6, l6, v6) = get_int_split 8 s5 (omega arith) v5 in
      let s6 = after 8 s5 in
      let (p7, f7, l7, v7) = get_int_split 2 s6 (omega arith) v6 in
      let s7 = after 2 s6 in
      let n = (b.get_int 2 s6).0 in
      let len : length e.payload ≡ n = ap length payload ∙ length-take_of_le n s7 fits in
      let body : s7 ≡ e.payload ++ drop n s7 =
        sym (take-append-drop n s7) ∙ ap (λ t. t ++ drop n s7) (sym payload) in
      (
        drop n s7,
        simp append_assoc (
            rw
              (
                Versioning.to_u8-from_u8 (b.get_int 1 s).0 e.version version,
                (MessageTypes.from_u8_iff (b.get_int 1 s1).0 e.message_type).0 kind,
                flags,
                mid,
                cid,
                time,
                len,
                ← body,
              )
              (p1
                ∙ behind 1 _ (
                    p2
                    ∙ behind 1 _ (
                        p3
                        ∙ behind 2 _ (p4 ∙ behind 8 _ (p5 ∙ behind 8 _ (p6 ∙ behind 8 _ p7))))))),
        record {
          flags_lt = omega arith;
          message_id_lt = omega arith;
          correlation_id_lt = omega arith;
          timestamp_lt = omega arith;
          payload_le = omega arith;
        },
      )

  tail-AreBytes : (w n : ℕ) (ys : Bytes) → AreBytes (to_be_bytes w n ++ ys) → AreBytes ys
  tail-AreBytes w n ys v = (AreBytes-split (to_be_bytes w n) ys v).1

  pub decode-AreBytes :
      (s : Bytes) (e : MessageEnvelope) → AreBytes s → decode s ≡ ok e → AreBytes e.payload
  decode-AreBytes s e v h =
      let (rest, whole, _) = decode_canonical s e v h in
      let (read, _) = AreBytes-split (wire e) rest (subst AreBytes whole v) in
      tail-AreBytes 2 _ _ (
        tail-AreBytes 8 _ _ (
          tail-AreBytes 8 _ _ (
            tail-AreBytes 8 _ _
              (tail-AreBytes 2 _ _ (tail-AreBytes 1 _ _ (tail-AreBytes 1 _ _ read))))))
