-- ===== src/Maps/Laws.antt =====
-- The laws of the maps: what a key finds after each operation, and that keys stay distinct.
use echomesh_relay.Prelude.{
  ◌+◌, ◌≡◌, refl, ◌∙◌, ◌≢◌, ◌⊎◌, inl, Bool, true, Option, none, some, [], ◌∷◌, arith, if◌then◌else◌,
  length,
}
use echomesh_relay.Maps.{Eq, HashMap, get, insert, remove, retain}

pub beq_self : {K : Type 0} ⦃e : Eq K⦄ (k : K) → e.beq k k ≡ true
beq_self ⦃e⦄ k = (e.beq_iff k k).1 refl

abbrev pub filter_value : {V : Type 0} → (V → Bool) → Option V → Option V
filter_value keep none = none
filter_value keep (some v) = if keep v then some v else none

module _ {K V : Type 0} ⦃e : Eq K⦄ where
  pub get-insert :
      (k j : K) (v : V) (m : HashMap K V)
      → get j (insert k v m) ≡ (if e.beq k j then some v else get j m)
  unfolding get insert
  get-insert k j v [] = refl
  get-insert k j v ((i, w) ∷ m) =
      ground (arith, e.beq_iff k j, e.beq_iff i k, e.beq_iff i j, get-insert k j v m)

  pub get-remove :
      (k j : K) (m : HashMap K V) → get j (remove k m) ≡ (if e.beq k j then none else get j m)
  unfolding get remove
  get-remove k j [] = ground arith
  get-remove k j ((i, w) ∷ m) =
      ground (arith, e.beq_iff k j, e.beq_iff i k, e.beq_iff i j, get-remove k j m)

  pub get-insert_self : (k : K) (v : V) (m : HashMap K V) → get k (insert k v m) ≡ some v
  get-insert_self k v m = get-insert k k v m ∙ rw (beq_self k)

  pub get-remove_self : (k : K) (m : HashMap K V) → get k (remove k m) ≡ none
  get-remove_self k m = get-remove k k m ∙ rw (beq_self k)

  -- No two entries have one key.
  abbrev pub Fresh : K → HashMap K V → Type 0
  Fresh k m = get k m ≡ none

  abbrev pub Distinct : HashMap K V → Type 0
  Distinct [] = Unit {0}
  Distinct ((k, v) ∷ m) = Fresh k m × Distinct m

  pub insert-Distinct : (k : K) (v : V) (m : HashMap K V) → Distinct m → Distinct (insert k v m)
  unfolding insert
  insert-Distinct k v [] d = (unfold get in refl, tt)
  insert-Distinct k v ((j, w) ∷ m) d =
      ground (arith, e.beq_iff j k, e.beq_iff k j, insert-Distinct k v m d.1, get-insert k j v m)

  pub remove-Distinct : (k : K) (m : HashMap K V) → Distinct m → Distinct (remove k m)
  unfolding remove
  remove-Distinct k [] d = tt
  remove-Distinct k ((j, w) ∷ m) d = ground (arith, remove-Distinct k m d.1, get-remove k j m)

  get-retain-none :
      (keep : V → Bool) (k : K) (m : HashMap K V) → get k m ≡ none → get k (retain keep m) ≡ none
  unfolding get retain
  get-retain-none keep k [] h = refl
  get-retain-none keep k ((j, w) ∷ m) h = ground (arith, get-retain-none keep k m)

  pub retain-Distinct : (keep : V → Bool) (m : HashMap K V) → Distinct m → Distinct (retain keep m)
  unfolding retain
  retain-Distinct keep [] d = tt
  retain-Distinct keep ((j, w) ∷ m) d =
      ground (arith, retain-Distinct keep m d.1, get-retain-none keep j m d.0)

  pub get-retain :
      (keep : V → Bool) (k : K) (m : HashMap K V)
      → Distinct m
      → get k (retain keep m) ≡ filter_value keep (get k m)
  unfolding get retain
  get-retain keep k [] d = refl
  get-retain keep k ((j, w) ∷ m) d =
      ground (arith, e.beq_iff j k, get-retain keep k m d.1, get-retain-none keep j m d.0)

  -- The number of entries: a new key adds one, a known key none, and a removal takes one away.
  pub length-insert :
      (k : K) (v : V) (m : HashMap K V)
      → ((get k m ≡ none) × (length (insert k v m) ≡ length m + 1))
        ⊎ ((get k m ≢ none) × (length (insert k v m) ≡ length m))
  unfolding get insert
  length-insert k v [] = inl (refl, omega arith)
  length-insert k v ((j, w) ∷ m) = ground (arith, length-insert k v m)

  -- What is found after an insertion was inserted, or was there before.
  pub get-insert_cases :
      (k j : K) (v w : V) (m : HashMap K V)
      → get j (insert k v m) ≡ some w
      → ((k ≡ j) × (v ≡ w)) ⊎ (get j m ≡ some w)
  get-insert_cases k j v w m h = ground (arith, get-insert k j v m, e.beq_iff k j)

  pub remove_absent : (k : K) (m : HashMap K V) → get k m ≡ none → remove k m ≡ m
  unfolding get remove
  remove_absent k [] h = refl
  remove_absent k ((j, v) ∷ m) h = ground (arith, remove_absent k m)
