-- ===== src/Transport/Tokens/Match.antt =====
-- Which ClientHello passes the validator of src/transport/obfuscation.rs.
use echomesh_relay.Prelude.{
  ℕ, ◌<◌, min, ◌≡◌, refl, sym, ap, ◌∙◌, subst, ◌↔◌, ◌⊎◌, inl, inr, Bool, true, false, ◌&&◌, Option,
  none, some, [], ◌∷◌, ◌++◌, arith, ltb, ◌==◌, if◌then◌else◌, lt→ltb, ==_iff, length, length-append,
  take, drop, take-append-drop, take-append, drop-append, Bytes,
}
use echomesh_relay.Protocol.Frame.{constant_time_eq}
use echomesh_relay.Protocol.Frame.Compare.{constant_time_eq_iff}
use echomesh_relay.Protocol.Messages.ServerToClient.{byte_at}
use echomesh_relay.Transport.Tokens.{
  ParsedClientHello, TokenValidator, random_valid, expected_valid, sni_valid, validate,
}

-- The name is the secret, or the secret and a domain, or the expected name.
abbrev pub Names : TokenValidator → Bytes → Type 0
Names v sni =
    (sni ≡ v.secret)
    ⊎ ((domain : Bytes) × (sni ≡ v.secret ++ (46 ∷ domain)))
    ⊎ (v.expected_sni ≡ some sni)

abbrev pub Proves : TokenValidator → ParsedClientHello → Type 0
Proves v hello =
    (take (min (length v.secret) 32) hello.random ≡ take (min (length v.secret) 32) v.secret)
    ⊎ ((sni : Bytes) × (hello.sni ≡ some sni) × Names v sni)

dotted : (n : ℕ) (s : Bytes) → byte_at n s ≡ 46 → (rest : Bytes) × (drop n s ≡ 46 ∷ rest)
unfolding byte_at
dotted n s h = first (drop n s) h
  where
    first :
        (t : Bytes)
        → (elim t as (λ _. ℕ) [ [] ↦ 0 | x ∷ _ ↦ x ]) ≡ 46
        → (rest : Bytes) × (t ≡ 46 ∷ rest)
    first [] k = absurd (omega arith)
    first (x ∷ rest) k = (rest, ap (λ y. y ∷ rest) k)

random_valid_iff :
    (v : TokenValidator) (hello : ParsedClientHello)
    → 0 < length v.secret
    → (random_valid v hello ≡ true)
      ↔ (take (min (length v.secret) 32) hello.random ≡ take (min (length v.secret) 32) v.secret)
unfolding random_valid
random_valid_iff v hello pos = rw (lt→ltb 0 (min (length v.secret) 32) (omega arith)) (
    constant_time_eq_iff (take (min (length v.secret) 32) hello.random)
      (take (min (length v.secret) 32) v.secret))

-- The three tests of a subdomain, together.
subdomain_iff :
    (secret sni : Bytes)
    → ((ltb (length secret) (length sni)
          && (byte_at (length secret) sni == 46)
          && constant_time_eq (take (length secret) sni) secret)
        ≡ true)
      ↔ ((domain : Bytes) × (sni ≡ secret ++ (46 ∷ domain)))
unfolding byte_at
subdomain_iff secret sni = (found, written)
  where
    found :
        (ltb (length secret) (length sni)
            && (byte_at (length secret) sni == 46)
            && constant_time_eq (take (length secret) sni) secret)
          ≡ true
        → (domain : Bytes) × (sni ≡ secret ++ (46 ∷ domain))
    found h =
        let n = length secret in
        let dot : byte_at n sni ≡ 46 = ground (arith, ==_iff (byte_at n sni) 46) in
        let front : take n sni ≡ secret =
          ground (arith, constant_time_eq_iff (take n sni) secret) in
        let (domain, back) = dotted n sni dot in
        (domain, sym (take-append-drop n sni) ∙ rw (front, back) refl)

    written :
        (domain : Bytes) × (sni ≡ secret ++ (46 ∷ domain))
        → (ltb (length secret) (length sni)
            && (byte_at (length secret) sni == 46)
            && constant_time_eq (take (length secret) sni) secret)
          ≡ true
    written (domain, e) =
        let n = length secret in
        let size = length-append secret (46 ∷ domain) in
        let long : ltb n (length sni) ≡ true = lt→ltb n (length sni) (omega (arith, ap length e)) in
        let dot : byte_at n sni ≡ 46 =
          rw (e, drop-append n secret (46 ∷ domain) refl, byte_at) refl in
        let front : take n sni ≡ secret = rw e (take-append n secret (46 ∷ domain) refl) in
        rw (long, dot, front, (constant_time_eq_iff secret secret).1 refl) refl

-- Three tests, one after the other.
first_of :
    (a s e : Bool) {P Q R : Type 0}
    → (a ≡ true) ↔ P
    → (s ≡ true) ↔ Q
    → (e ≡ true) ↔ R
    → ((if a then true else if s then true else e) ≡ true) ↔ (P ⊎ Q ⊎ R)
first_of true s e {P} {Q} {R} p q r = (λ _. inl (p.0 refl), λ _. refl)
first_of false true e {P} {Q} {R} p q r = (λ _. inr (inl (q.0 refl)), λ _. refl)
first_of false false e {P} {Q} {R} p q r = (λ h. inr (inr (r.0 h)), back)
  where
    back : (P ⊎ Q ⊎ R) → e ≡ true
    back (inl x) = cc (p.1 x)
    back (inr (inl y)) = cc (q.1 y)
    back (inr (inr z)) = r.1 z

expected_valid_iff :
    (o : Option Bytes) (sni : Bytes) → (expected_valid o sni ≡ true) ↔ (o ≡ some sni)
unfolding expected_valid
expected_valid_iff none sni = (λ h. cc, λ h. cc)
expected_valid_iff (some x) sni = (
  λ h. ap some (sym ((constant_time_eq_iff sni x).0 h)),
  λ h. (constant_time_eq_iff sni x).1 (cc),
)

sni_valid_iff : (v : TokenValidator) (sni : Bytes) → (sni_valid v (some sni) ≡ true) ↔ Names v sni
unfolding sni_valid
sni_valid_iff v sni =
    first_of (constant_time_eq sni v.secret) _ (expected_valid v.expected_sni sni)
      (constant_time_eq_iff sni v.secret) (subdomain_iff v.secret sni)
      (expected_valid_iff v.expected_sni sni)

some_name_iff :
    (v : TokenValidator) (o : Option Bytes)
    → (sni_valid v o ≡ true) ↔ ((sni : Bytes) × (o ≡ some sni) × Names v sni)
some_name_iff v none = (λ h. unfold sni_valid in cc, λ h. cc (h.1))
some_name_iff v (some x) = (
  λ h. (x, refl, (sni_valid_iff v x).0 h),
  λ h. (sni_valid_iff v x).1 (subst (Names v) (cc (h.1)) h.2),
)

Proves-iff :
    (v : TokenValidator) (hello : ParsedClientHello)
    → 0 < length v.secret
    → ((if random_valid v hello then true else sni_valid v hello.sni) ≡ true) ↔ Proves v hello
Proves-iff v hello pos =
    either (random_valid v hello) (sni_valid v hello.sni) (random_valid_iff v hello pos)
      (some_name_iff v hello.sni)
  where
    either :
        (a e : Bool) {P Q : Type 0}
        → (a ≡ true) ↔ P
        → (e ≡ true) ↔ Q
        → ((if a then true else e) ≡ true) ↔ (P ⊎ Q)
    either true e {P} {Q} p q = (λ _. inl (p.0 refl), λ _. refl)
    either false e {P} {Q} p q = (λ h. inr (q.0 h), back)
      where
        back : (P ⊎ Q) → e ≡ true
        back (inl x) = cc (p.1 x)
        back (inr y) = q.1 y

-- A bypass, then a refusal, then a test.
guarded :
    (bypass refused test : Bool) {P Q : Type 0}
    → (refused ≡ false) ↔ P
    → (P → (test ≡ true) ↔ Q)
    → ((if bypass then true else if refused then false else test) ≡ true)
      ↔ ((bypass ≡ true) ⊎ (P × Q))
guarded true z t {P} {Q} p q = (λ _. inl refl, λ _. refl)
guarded false true t {P} {Q} p q = (λ h. cc, back)
  where
    back : (false ≡ true) ⊎ (P × Q) → false ≡ true
    back (inl x) = x
    back (inr y) = cc (p.1 y.0)
guarded false false t {P} {Q} p q = (λ h. inr (p.0 refl, (q (p.0 refl)).0 h), back)
  where
    back : (false ≡ true) ⊎ (P × Q) → t ≡ true
    back (inl x) = cc
    back (inr y) = (q y.0).1 y.1

-- A validator accepts a ClientHello exactly when it is set to accept all, or its secret is not
-- empty and the ClientHello proves it: the front of `random` is the front of the secret, to the
-- length of the secret and 32 bytes at most, or the name is the secret, the secret with a domain
-- behind a dot, or the expected name.
pub validate_iff :
    (v : TokenValidator) (hello : ParsedClientHello)
    → (validate v hello ≡ true)
      ↔ ((v.insecure_no_token ≡ true) ⊎ ((0 < length v.secret) × Proves v hello))
unfolding validate
validate_iff v hello =
    guarded v.insecure_no_token (length v.secret == 0)
      (if random_valid v hello then true else sni_valid v hello.sni)
      (λ h. ground arith, λ h. ground arith) (Proves-iff v hello)
