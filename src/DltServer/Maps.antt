-- ===== src/DltServer/Maps.antt =====
-- `std::unordered_map` as an association list: the order of the list is the order of iteration,
-- which the standard leaves open. Keys come with their equality.
use logging.Prelude.{
  ◌≡◌, refl, subst, ◌↔◌, inl, inr, Bool, true, Option, none, some, List, [], ◌∷◌, arith,
  if◌then◌else◌, Bool-cases, Option-cases,
}

pub record Key {ℓ} (K : Type ℓ) : Type ℓ where
  pub same : K → K → Bool
  pub same_iff : (a b : K) → (same a b ≡ true) ↔ (a ≡ b)

abbrev pub value_or {ℓ} : {V : Type ℓ} → Option V → V → V
value_or none d = d
value_or (some v) d = v

module _ {ℓ κ} {K : Type ℓ} {V : Type κ} ⦃key : Key K⦄ where
  unfoldable pub find_entry : K → List (K × V) → Option V
  find_entry k [] = none
  find_entry k ((j, v) ∷ m) = if key.same j k then some v else find_entry k m

  -- `emplace`: an entry that is there stays.
  pub emplace : K → V → List (K × V) → List (K × V)
  emplace k v [] = (k, v) ∷ []
  emplace k v ((j, w) ∷ m) = if key.same j k then (j, w) ∷ m else (j, w) ∷ emplace k v m

  -- Assignment through `operator[]` or an iterator.
  unfoldable pub assign : K → V → List (K × V) → List (K × V)
  assign k v [] = (k, v) ∷ []
  assign k v ((j, w) ∷ m) = if key.same j k then (j, v) ∷ m else (j, w) ∷ assign k v m

  pub erase_entry : K → List (K × V) → List (K × V)
  erase_entry k [] = []
  erase_entry k ((j, w) ∷ m) =
      let rest = erase_entry k m in if key.same j k then rest else (j, w) ∷ rest

  pub find_entry-emplace :
      (k j : K) (v : V) (m : List (K × V))
      → find_entry j (emplace k v m)
        ≡ (if key.same k j then some (value_or (find_entry k m) v) else find_entry j m)
  unfolding find_entry emplace
  find_entry-emplace k j v [] = refl
  find_entry-emplace k j v ((i, w) ∷ m) =
      ground
        (arith, key.same_iff k j, key.same_iff i k, key.same_iff i j, find_entry-emplace k j v m)

  pub find_entry-emplace_old :
      (k j : K) (v w : V) (m : List (K × V))
      → find_entry j m ≡ some w
      → find_entry j (emplace k v m) ≡ some w
  find_entry-emplace_old k j v w m h = ground (arith, key.same_iff k j, find_entry-emplace k j v m)

  pub find_entry-emplace_new :
      (k : K) (v : V) (m : List (K × V))
      → find_entry k m ≡ none
      → find_entry k (emplace k v m) ≡ some v
  find_entry-emplace_new k v m h = ground (arith, key.same_iff k k, find_entry-emplace k k v m)

  pub find_entry-assign :
      (k j : K) (v : V) (m : List (K × V))
      → find_entry j (assign k v m) ≡ (if key.same k j then some v else find_entry j m)
  unfolding find_entry assign
  find_entry-assign k j v [] = refl
  find_entry-assign k j v ((i, w) ∷ m) =
      ground
        (arith, key.same_iff k j, key.same_iff i k, key.same_iff i j, find_entry-assign k j v m)

  pub find_entry-erase_entry :
      (k j : K) (m : List (K × V))
      → find_entry j (erase_entry k m) ≡ (if key.same k j then none else find_entry j m)
  unfolding find_entry erase_entry
  find_entry-erase_entry k j [] = ground arith
  find_entry-erase_entry k j ((i, w) ∷ m) =
      ground
        (arith, key.same_iff k j, key.same_iff i k, key.same_iff i j, find_entry-erase_entry k j m)

  -- Every value that a lookup finds has the property.
  abbrev pub Found {μ} : (V → Type μ) → List (K × V) → Type (ℓ ⊔ κ ⊔ μ)
  Found P m = (j : K) (w : V) → find_entry j m ≡ some w → P w

  pub Found-emplace {μ} :
      {P : V → Type μ} (k : K) (v : V) (m : List (K × V))
      → P v
      → Found P m
      → Found P (emplace k v m)
  Found-emplace {P} k v m p h j w e = elim (Bool-cases (key.same k j)) [
    | inr other ↦ h j w (ground (arith, find_entry-emplace k j v m))
    | inl same ↦ elim (Option-cases (find_entry k m)) [
      | inl new ↦ subst P (ground (arith, find_entry-emplace k j v m)) p
      | inr (u, old) ↦ h k w (ground (arith, find_entry-emplace k j v m))
    ]
  ]

  pub Found-assign {μ} :
      {P : V → Type μ} (k : K) (v : V) (m : List (K × V)) → P v → Found P m → Found P (assign k v m)
  Found-assign {P} k v m p h j w e = elim (Bool-cases (key.same k j)) [
    | inr other ↦ h j w (ground (arith, find_entry-assign k j v m))
    | inl same ↦ subst P (ground (arith, find_entry-assign k j v m)) p
  ]

  pub Found-erase_entry {μ} :
      {P : V → Type μ} (k : K) (m : List (K × V)) → Found P m → Found P (erase_entry k m)
  Found-erase_entry k m h j w e = h j w (ground (arith, find_entry-erase_entry k j m))

  pub Found-nil {μ} : (P : V → Type μ) → Found P []
  unfolding find_entry
  Found-nil P j w e = cc
