-- ===== src/Relay/Gate/Clients.antt =====
-- A client of src/transport/obfuscation.rs at the gate of src/server/routed_listener.rs.
use echomesh_relay.Prelude.{
  ℕ, ◌≤◌, ◌<◌, ◌≡◌, sym, subst, ◌≢◌, inl, inr, Bool, true, false, some, ◌++◌, arith, if◌then◌else◌,
  Bool-cases, length, drop, drop-append, Bytes, ByteBuf,
}
use echomesh_relay.Protocol.Messages.ServerToClient.{Utf8}
use echomesh_relay.Transport.Tokens
use echomesh_relay.Transport.Tokens.{ParsedClientHello, validate}
use echomesh_relay.Transport.Builder
use echomesh_relay.Transport.Builder.{build}
use echomesh_relay.Transport.Builder.Admitted.{build_front}
use echomesh_relay.Transport.Builder.Secret.{new-Fits, secret_recognised}
use echomesh_relay.Transport.Hello.{ClientHelloStatus, total_len}
use echomesh_relay.Relay.Gate.{Outcome, Listener, dev_mode, handle_connection}
use echomesh_relay.Relay.Gate.Admits.{Settled, Served, Proxied, handle_connection_lem}

-- The listener of a server with this secret, without any bypass.
unfoldable pub strict : Bytes → Listener
strict secret = record {
  validator = Tokens.new secret;
  insecure_no_token = false;
  env_insecure = false;
}

module _ ⦃b : ByteBuf⦄ ⦃u : Utf8⦄ where
  -- A server and a client with secrets of 32 bytes, a client's host name that is UTF-8 and has fewer
  -- than 32 bytes, and a first read of at least one byte and at most what is sent: where the secrets
  -- are the same, a session begins and reads exactly what the client sends behind its ClientHello;
  -- where they differ, the connection goes to the fallback target with every byte of it.
  pub client_recognised :
      (mine theirs host rest : Bytes) (n : ℕ)
      → length mine ≡ 32
      → length theirs ≡ 32
      → u.is_utf8 host ≡ true
      → length host < 32
      → 0 < n
      → n ≤ length (build (Builder.new theirs host) ++ rest)
      → let sent = build (Builder.new theirs host) ++ rest in
        (out : Outcome) × (handle_connection (strict mine) n sent ≡ some out)
        × (theirs ≡ mine → Served rest out)
        × (theirs ≢ mine → Proxied sent out)
  unfolding strict dev_mode Tokens.new
  client_recognised mine theirs host rest n m t v h pos le =
      let sent : Bytes = build (Builder.new theirs host) ++ rest in
      let (hello, whole, accepted) = secret_recognised mine theirs host rest m t v h in
      let (first, total) =
        build_front (Builder.new theirs host) rest (new-Fits theirs host v (omega arith)) in
      let (out, runs, settled) = handle_connection_lem (strict mine) n sent pos le first in
      let behind : drop (total_len sent) sent ≡ rest =
        drop-append (total_len sent) (build (Builder.new theirs host)) rest (sym total) in
      let by_status : Settled (strict mine) sent (some (ClientHelloStatus.complete hello)) out =
        subst (λ st. Settled (strict mine) sent st out) whole settled in
      let verdict : Bool → Type 0 =
        λ t. if t then Served (drop (total_len sent) sent) out else Proxied sent out in
      (
        out,
        runs,
        λ same. subst (λ s. Served s out) behind (subst verdict (accepted.1 same) by_status),
        λ differ. elim (Bool-cases (validate (Tokens.new mine) hello)) [
          | inl admitted ↦ absurd (differ (accepted.0 admitted))
          | inr refused ↦ subst verdict refused by_status
        ],
      )
