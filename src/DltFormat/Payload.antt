-- ===== src/DltFormat/Payload.antt =====
-- helper_functions.h, and `Store` of dlt_format.cpp: the parts of an argument are put into the payload
-- together or not at all. `VerbosePayload` is not code of this repository: its operations are the
-- fields of a record, and what they do is in `PayloadLaws`.
use logging.Prelude.{
  ℕ, ◌+◌, ◌-◌, ◌^◌, ◌≤◌, ◌<◌, ◌≡◌, refl, sym, ap, ◌∙◌, ◌⊎◌, inl, inr, Bool, false, not, List, [],
  ◌∷◌, ◌++◌, append-nil, append_assoc, arith, ltb, leb, if◌then◌else◌, Bool-cases, length,
}

-- The operations of a payload that the code calls.
pub record VerbosePayload (P : Type 0) : Type 0 where
  pub will_overflow : P → ℕ → Bool
  pub put : P → List ℕ → P
  pub remaining_capacity : P → ℕ

-- A payload is a string of bytes with room for more.
pub record PayloadLaws {P : Type 0} (ops : VerbosePayload P) : Type 0 where
  pub content : P → List ℕ
  pub will_overflow_lem :
      (p : P) (size : ℕ) → ops.will_overflow p size ≡ ltb (ops.remaining_capacity p) size
  pub content-put :
      (p : P) (data_ : List ℕ)
      → length data_ ≤ ops.remaining_capacity p
      → content (ops.put p data_) ≡ content p ++ data_
  pub remaining_capacity-put :
      (p : P) (data_ : List ℕ)
      → length data_ ≤ ops.remaining_capacity p
      → ops.remaining_capacity (ops.put p data_) ≡ ops.remaining_capacity p - length data_
  pub remaining_capacity_bound : (p : P) → ops.remaining_capacity p < 2 ^ 64 - 1

pub data AddArgumentResult : Type 0 where
  k_added k_not_added : AddArgumentResult

abbrev max_u64 : ℕ
max_u64 = 2 ^ 64 - 1

abbrev pub max_u16 : ℕ
max_u16 = 2 ^ 16 - 1

-- `helper::Sum`
sum : List ℕ → ℕ
sum [] = 0
sum (t ∷ []) = t
sum (t ∷ u ∷ rest) =
    let partial_sum = sum (u ∷ rest) in
    if ltb (max_u64 - partial_sum) t then max_u64 else t + partial_sum

-- `helper::ClampTo`, for a target type with that maximum.
abbrev pub clamp_to : ℕ → ℕ → ℕ
clamp_to target_max value = if ltb target_max value then target_max else value

abbrev pub clamp_add_null_terminator : ℕ → ℕ
clamp_add_null_terminator size = if ltb size max_u16 then size + 1 else size

unfoldable pub total : List ℕ → ℕ
total [] = 0
total (t ∷ rest) = t + total rest

sum_lem :
    (ts : List ℕ)
    → (total ts < max_u64 → sum ts ≡ total ts) × (max_u64 ≤ total ts → max_u64 ≤ sum ts)
unfolding sum total
sum_lem [] = (λ h. refl, λ h. ground arith)
sum_lem (t ∷ []) = (λ h. omega arith, λ h. omega arith)
sum_lem (t ∷ u ∷ rest) =
    let (small, large) = sum_lem (u ∷ rest) in
    (λ h. ground (arith, small), λ h. ground (arith, small, large))

unfoldable pub concat : List (List ℕ) → List ℕ
concat [] = []
concat (part ∷ rest) = part ++ concat rest

unfoldable pub sizes : List (List ℕ) → List ℕ
sizes [] = []
sizes (part ∷ rest) = length part ∷ sizes rest

module _ {P : Type 0} (ops : VerbosePayload P) where
  will_message_fit : P → List (List ℕ) → Bool
  will_message_fit payload message_parts =
      not (ops.will_overflow payload (sum (sizes message_parts)))

  -- `DoFor`, with the function that `Store` gives it.
  put_parts : P → List (List ℕ) → P
  put_parts payload [] = payload
  put_parts payload (part ∷ rest) = put_parts (ops.put payload part) rest

  pub store : P → List (List ℕ) → P × AddArgumentResult
  store payload data_for_payload =
      if will_message_fit payload data_for_payload
      then (put_parts payload data_for_payload, k_added)
      else (payload, k_not_added)

module _ {P : Type 0} {ops : VerbosePayload P} (laws : PayloadLaws ops) where
  -- A message fits exactly when its parts together do: the sum does not wrap around.
  will_message_fit_lem :
      (payload : P) (parts : List (List ℕ))
      → will_message_fit ops payload parts
        ≡ leb (total (sizes parts)) (ops.remaining_capacity payload)
  unfolding will_message_fit
  will_message_fit_lem payload parts =
      let (small, large) = sum_lem (sizes parts) in
      ground (
        arith,
        laws.will_overflow_lem payload (sum (sizes parts)),
        laws.remaining_capacity_bound payload,
        small,
        large,
      )

  put_parts_lem :
      (payload : P) (parts : List (List ℕ))
      → total (sizes parts) ≤ ops.remaining_capacity payload
      → (laws.content (put_parts ops payload parts) ≡ laws.content payload ++ concat parts)
        × (ops.remaining_capacity (put_parts ops payload parts)
            ≡ ops.remaining_capacity payload - total (sizes parts))
  unfolding put_parts total sizes concat
  put_parts_lem payload [] h = (sym (append-nil _), omega arith)
  put_parts_lem payload (part ∷ rest) h =
      let r = laws.remaining_capacity-put payload part (omega arith) in
      let (c, n) = put_parts_lem (ops.put payload part) rest (omega (arith, r)) in
      (
        c
            ∙ (ap (λ x. x ++ concat rest) (laws.content-put payload part (omega arith)))
            ∙ append_assoc (laws.content payload) part (concat rest),
        omega (arith, n, r),
      )

  -- What `Store` does: all parts, when there is room for them together, and else nothing.
  Stores : P → List (List ℕ) → P × AddArgumentResult → Type 0
  Stores payload parts (payload', result) =
      ((result ≡ k_added)
        × (laws.content payload' ≡ laws.content payload ++ concat parts)
        × (ops.remaining_capacity payload' + total (sizes parts) ≡ ops.remaining_capacity payload))
      ⊎ ((result ≡ k_not_added)
          × (payload' ≡ payload)
          × (ops.remaining_capacity payload < total (sizes parts)))

  store-Stores :
      (payload : P) (parts : List (List ℕ)) → Stores payload parts (store ops payload parts)
  unfolding store Stores
  store-Stores payload parts = elim (Bool-cases (will_message_fit ops payload parts)) [
    | inl e ↦
        let (c, n) =
          put_parts_lem payload parts (ground (arith, will_message_fit_lem payload parts)) in
        rw e (inl (refl, c, ground (arith, n, will_message_fit_lem payload parts)))
    | inr e ↦ rw e (inr (refl, refl, ground (arith, will_message_fit_lem payload parts)))
  ]

  pub store_fits :
      (payload : P) (parts : List (List ℕ))
      → total (sizes parts) ≤ ops.remaining_capacity payload
      → let (payload', result) = store ops payload parts in
        (result ≡ k_added)
        × (laws.content payload' ≡ laws.content payload ++ concat parts)
        × (ops.remaining_capacity payload' + total (sizes parts) ≡ ops.remaining_capacity payload)
  unfolding Stores
  store_fits payload parts h = elim (store-Stores payload parts) [
    | inl added ↦ added
    | inr (_, _, full) ↦ absurd (omega arith)
  ]

  pub store_full :
      (payload : P) (parts : List (List ℕ))
      → ops.remaining_capacity payload < total (sizes parts)
      → store ops payload parts ≡ (payload, k_not_added)
  unfolding store
  store_full payload parts h =
      let no_fit : will_message_fit ops payload parts ≡ false =
        ground (arith, will_message_fit_lem payload parts) in
      rw no_fit refl
