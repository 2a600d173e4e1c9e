-- ===== src/Prelude/Dict.antt =====
-- Python's `dict` as an association list in insertion order: assigning to a key that is there keeps its
-- place.
use mathlib.Core.Path.{ap, ◌≡◌, refl}
use mathlib.Core.Logic.{◌↔◌, ◌⊎◌, inl, inr, ⊎_elim}
use mathlib.Core.Bool.{true, false}
use mathlib.Core.List.{List, [], ◌∷◌, Memᴰ}
use mathlib.Core.List.Memᴰ
use mathlib.Core.Option.{Option, none, some}
use native.Mathlib.Omega.{arith}
use schema_sentry.Prelude.Tests.{if◌then◌else◌, is_some, Bool-cases}
use schema_sentry.Prelude.Equal.{Eq, ◌==◌, test_refl}
use schema_sentry.Prelude.Lists.{Memᴰ-cons}

abbrev pub Dict {ℓ κ} : Type ℓ → Type κ → Type (ℓ ⊔ κ)
Dict K V = List (K × V)

abbrev pub keys {ℓ κ} : {K : Type ℓ} {V : Type κ} → Dict K V → List K
keys [] = []
keys ((k, v) ∷ d) = k ∷ keys d

abbrev pub values {ℓ κ} : {K : Type ℓ} {V : Type κ} → Dict K V → List V
values [] = []
values ((k, v) ∷ d) = v ∷ values d

module _ {ℓ κ} {K : Type ℓ} {V : Type κ} ⦃e : Eq K⦄ where
  -- `d.get(k)`
  unfoldable pub get : K → Dict K V → Option V
  get k [] = none
  get k ((j, v) ∷ d) = if j == k then some v else get k d

  -- `d[k] = v`
  unfoldable pub put : K → V → Dict K V → Dict K V
  put k v [] = (k, v) ∷ []
  put k v ((j, w) ∷ d) = if j == k then (j, v) ∷ d else (j, w) ∷ put k v d

  pub get-put :
      (k j : K) (v : V) (d : Dict K V) → get j (put k v d) ≡ (if k == j then some v else get j d)
  unfolding get put
  get-put k j v [] = refl
  get-put k j v ((i, w) ∷ d) =
      ground (arith, e.test_iff k j, e.test_iff i k, e.test_iff i j, get-put k j v d)

  pub get-put_self : (k : K) (v : V) (d : Dict K V) → get k (put k v d) ≡ some v
  get-put_self k v d = rw (get-put k k v d, test_refl k) refl

  pub get-put_ne : (k j : K) (v : V) (d : Dict K V) → (k == j) ≡ false → get j (put k v d) ≡ get j d
  get-put_ne k j v d h = rw (get-put k j v d, h) refl

  pub get-eq-some_iff_key : (k : K) (d : Dict K V) → (is_some (get k d) ≡ true) ↔ Memᴰ k (keys d)
  unfolding get
  get-eq-some_iff_key k [] = (λ h. ground arith, λ m. absurd (Memᴰ.not-nil m))
  get-eq-some_iff_key k ((j, v) ∷ d) =
      ground (arith, e.test_iff j k, get-eq-some_iff_key k d, Memᴰ-cons k j (keys d))

  pub Memᴰ-keys-put :
      (j k : K) (v : V) (d : Dict K V) → Memᴰ j (keys (put k v d)) ↔ ((j ≡ k) ⊎ Memᴰ j (keys d))
  unfolding put
  Memᴰ-keys-put j k v [] = Memᴰ-cons j k []
  Memᴰ-keys-put j k v ((i, w) ∷ d) = ground (
    arith,
    e.test_iff i k,
    Memᴰ-keys-put j k v d,
    Memᴰ-cons j i (keys d),
    Memᴰ-cons j i (keys (put k v d)),
  )

  pub mem-values_of_get : (k : K) (d : Dict K V) {v : V} → get k d ≡ some v → Memᴰ v (values d)
  unfolding get
  mem-values_of_get k [] h = ground arith
  mem-values_of_get k ((j, w) ∷ d) {v} h =
      ground (arith, mem-values_of_get k d {v = v}, Memᴰ-cons v w (values d))

  pub mem-values-put :
      (k : K) (v w : V) (d : Dict K V) → Memᴰ w (values (put k v d)) → (w ≡ v) ⊎ Memᴰ w (values d)
  unfolding put
  mem-values-put k v w [] = (Memᴰ-cons w v []).0
  mem-values-put k v w ((i, u) ∷ d) = ground (
    arith,
    mem-values-put k v w d,
    Memᴰ-cons w u (values d),
    Memᴰ-cons w v (values d),
    Memᴰ-cons w u (values (put k v d)),
  )

module _ {ℓ κ} {K : Type ℓ} {A : Type κ} ⦃e : Eq K⦄ (key : A → K) where
  index_into : Dict K A → List A → Dict K A
  index_into d [] = d
  index_into d (a ∷ as') = index_into (put (key a) a d) as'

  -- `{key(a): a for a in xs}`
  unfoldable pub index_by : List A → Dict K A
  unfolding index_into
  index_by xs = index_into [] xs

  -- the last element that has the key, or the given value
  latest_or : Option A → K → List A → Option A
  latest_or o k [] = o
  latest_or o k (a ∷ as') = latest_or (if key a == k then some a else o) k as'

  unfoldable pub latest : K → List A → Option A
  unfolding latest_or
  latest k xs = latest_or none k xs

  get-index_into :
      (k : K) (d : Dict K A) (xs : List A) → get k (index_into d xs) ≡ latest_or (get k d) k xs
  unfolding index_into latest_or
  get-index_into k d [] = refl
  get-index_into k d (a ∷ as') =
      rw (← get-put (key a) k a d) (get-index_into k (put (key a) a d) as')

  pub get-index_by : (k : K) (xs : List A) → get k (index_by xs) ≡ latest k xs
  unfolding index_by latest get
  get-index_by k xs = get-index_into k [] xs

  latest_or_key :
      (k : K) (o : Option A) (xs : List A) {a : A}
      → ((b : A) → o ≡ some b → key b ≡ k)
      → latest_or o k xs ≡ some a
      → key a ≡ k
  unfolding latest_or
  latest_or_key k o [] {a} h p = h a p
  latest_or_key k o (x ∷ xs) h p =
      latest_or_key k (if key x == k then some x else o) xs
        (λ b q. ground (arith, e.test_iff (key x) k, h b)) p

  -- What is found under a key has that key.
  pub key_of_latest : (k : K) (xs : List A) {a : A} → latest k xs ≡ some a → key a ≡ k
  unfolding latest
  key_of_latest k xs p = latest_or_key k none xs (λ b q. ground arith) p

  latest_or_mem :
      (k : K) (o : Option A) (xs : List A) {a : A}
      → latest_or o k xs ≡ some a
      → (o ≡ some a) ⊎ Memᴰ a xs
  unfolding latest_or
  latest_or_mem k o [] p = inl p
  latest_or_mem k o (x ∷ xs) {a} p = elim (Bool-cases (key x == k)) [
    | inl q ↦
        ⊎_elim (λ r. inr (Memᴰ.head (ground arith))) (λ m. inr (Memᴰ.tail m))
          (latest_or_mem k (some x) xs {a = a} (rw (q, latest_or) at p))
    | inr q ↦
        ⊎_elim (λ r. inl r) (λ m. inr (Memᴰ.tail m))
          (latest_or_mem k o xs {a = a} (rw (q, latest_or) at p))
  ]

  pub mem_of_latest : (k : K) (xs : List A) {a : A} → latest k xs ≡ some a → Memᴰ a xs
  unfolding latest
  mem_of_latest k xs p = ⊎_elim (λ q. ground arith) (λ m. m) (latest_or_mem k none xs p)

  latest_or_some :
      (k : K) (o : Option A) (xs : List A) → is_some o ≡ true → is_some (latest_or o k xs) ≡ true
  unfolding latest_or
  latest_or_some k o [] h = h
  latest_or_some k o (x ∷ xs) h =
      latest_or_some k (if key x == k then some x else o) xs
        (ground (arith, Bool-cases (key x == k)))

  latest_or_of_mem :
      (o : Option A) (a : A) (xs : List A) → Memᴰ a xs → is_some (latest_or o (key a) xs) ≡ true
  unfolding latest_or
  latest_or_of_mem o a [] m = absurd (Memᴰ.not-nil m)
  latest_or_of_mem o a (x ∷ xs) (Memᴰ.head same) =
      latest_or_some (key a) (if key x == key a then some x else o) xs
        (ground (arith, e.test_iff (key x) (key a), ap key same))
  latest_or_of_mem o a (x ∷ xs) (Memᴰ.tail m) =
      latest_or_of_mem (if key x == key a then some x else o) a xs m

  -- An element is found, or a later one with its key.
  pub latest_of_mem : (a : A) (xs : List A) → Memᴰ a xs → is_some (latest (key a) xs) ≡ true
  unfolding latest
  latest_of_mem a xs m = latest_or_of_mem none a xs m
