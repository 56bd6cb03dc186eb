-- ===== src/DltServer/Filtering.antt =====
-- Routing: where an accepted message goes, and that it is never lost.
use logging.Prelude.{
  ℕ, zero, suc, ◌+◌, ◌≤◌, ◌<◌, ◌≡◌, ap, inl, inr, Bool, true, false, ◌&&◌, ◌||◌, some, List, [],
  ◌∷◌, arith, ℕ_discrete, ltb, leb, ◌==◌, if◌then◌else◌, Bool-cases, Option-cases, length,
}
use logging.DltServer.Ids.{DltidT, no_id}
use logging.DltServer.Maps.{find_entry}
use logging.DltServer.Config.{dltid_key, pair_key}
use logging.DltServer.Server.{Channelmask, any_below, mask_none, DltLogChannel, DltLogServer}
use logging.DltServer.Routing.{
  find_in_key_map, is_accepted_by_filtering, assigned_to_channels, calls_from, filter_and_call,
}

abbrev pub occurs : ℕ → List ℕ → Bool
occurs k [] = false
occurs k (i ∷ is) = (i == k) || occurs k is

-- Each entry of the list is below the next.
abbrev pub Ascending : ℕ → List ℕ → Type 0
Ascending b [] = Unit {0}
Ascending b (i ∷ is) = (b ≤ i) × Ascending (i + 1) is

calls_from-occurs :
    (k i : ℕ) (cs : List DltLogChannel) (m : Channelmask)
    → occurs k (calls_from i cs m) ≡ (leb i k && (ltb k (i + length cs) && m k))
unfolding calls_from
calls_from-occurs k i [] m = ground arith
calls_from-occurs k i (c ∷ cs) m = elim (ℕ_discrete i k) [
  | yes e ↦ ground (arith, calls_from-occurs k (i + 1) cs m, ap m e)
  | no e ↦ ground (arith, calls_from-occurs k (i + 1) cs m)
]

Ascending-mono : {a b : ℕ} (is : List ℕ) → a ≤ b → Ascending b is → Ascending a is
Ascending-mono [] h s = tt
Ascending-mono (i ∷ is) h s = (omega arith, s.1)

calls_from-Ascending :
    (i : ℕ) (cs : List DltLogChannel) (m : Channelmask) → Ascending i (calls_from i cs m)
unfolding calls_from
calls_from-Ascending i [] m = tt
calls_from-Ascending i (c ∷ cs) m = elim (Bool-cases (m i)) [
  | inl e ↦ rw e (omega arith, calls_from-Ascending (i + 1) cs m)
  | inr e ↦
      rw e
        (Ascending-mono (calls_from (i + 1) cs m) (omega arith) (calls_from-Ascending (i + 1) cs m))
]

any_below_found :
    (n : ℕ) (m : Channelmask) → any_below n m ≡ true → (i : ℕ) × (i < n) × (m i ≡ true)
unfolding any_below
any_below_found zero m e = cc
any_below_found (suc n) m e = elim (Bool-cases (m n)) [
  | inl h ↦ (n, omega arith, h)
  | inr h ↦ let (i, lt, hi) = any_below_found n m (ground arith) in (i, omega arith, hi)
]

pub any_below-false :
    (n : ℕ) (m : Channelmask) → any_below n m ≡ false → (i : ℕ) → i < n → m i ≡ false
unfolding any_below
any_below-false zero m e i lt = elim lt [ ]
any_below-false (suc n) m e i lt = elim (ℕ_discrete i n) [
  | yes h ↦ rw h (ground arith)
  | no h ↦ any_below-false n m (ground arith) i (omega arith)
]

mask_none_not : (m : Channelmask) → mask_none m ≡ false → (i : ℕ) × (i < 32) × (m i ≡ true)
unfolding mask_none
mask_none_not m e = any_below_found 32 m (ground arith)

-- What the three lookups find is an entry of the map.
find_in_key_map-found :
    {V : Type 0} (m : List ((DltidT × DltidT) × V)) (app_id ctx_id : DltidT) {v : V}
    → find_in_key_map m app_id ctx_id ≡ some v
    → (key : DltidT × DltidT) × (find_entry key m ≡ some v)
unfolding find_in_key_map
find_in_key_map-found m app_id ctx_id {v} e = elim (Option-cases (find_entry (app_id, ctx_id) m)) [
  | inr (w, h) ↦ ((app_id, ctx_id), ground arith)
  | inl h ↦ elim (Option-cases (find_entry (no_id, ctx_id) m)) [
    | inr (w, k) ↦ ((no_id, ctx_id), ground arith)
    | inl k ↦ ((app_id, no_id), ground arith)
  ]
]

-- The channels and everything that refers to one by its index.
pub record IsRoutable {Double : Type 0} (s : DltLogServer Double) : Type 0 where
  pub few : length s.channels ≤ 32
  pub default_there : s.default_channel < length s.channels
  pub names_there :
      (name : DltidT) (i : ℕ) → find_entry name s.channel_nums ≡ some i → i < length s.channels
  pub masks_there :
      (key : DltidT × DltidT) (m : Channelmask)
      → find_entry key s.channel_assignments ≡ some m
      → (i : ℕ) → m i ≡ true
      → i < length s.channels

module _ {Double : Type 0} (s : DltLogServer Double) (app_id ctx_id : DltidT) (log_level : ℕ) where
  abbrev accepted : Bool
  accepted = is_accepted_by_filtering s app_id ctx_id log_level

  abbrev assigned : Channelmask
  assigned = assigned_to_channels s app_id ctx_id

  -- A message is sent to channel `k` exactly when it is accepted and `k` is the default channel, if
  -- no channel is assigned to it, or else one of the server's channels that is assigned to it.
  pub filter_and_call-occurs :
      (k : ℕ)
      → occurs k (filter_and_call s app_id ctx_id log_level) ≡ (
          accepted
          && (if mask_none assigned
              then s.default_channel == k
              else ltb k (length s.channels) && assigned k))
  unfolding filter_and_call
  filter_and_call-occurs k = ground (arith, calls_from-occurs k 0 s.channels assigned)

  -- A message is sent to no channel twice: the indices of its channels ascend.
  pub filter_and_call-Ascending : Ascending 0 (filter_and_call s app_id ctx_id log_level)
  unfolding filter_and_call
  filter_and_call-Ascending = ground (arith, calls_from-Ascending 0 s.channels assigned)

  assigned_there : IsRoutable s → (i : ℕ) → assigned i ≡ true → i < length s.channels
  unfolding assigned_to_channels
  assigned_there r i h = elim (Option-cases (find_in_key_map s.channel_assignments app_id ctx_id)) [
    | inl e ↦ absurd (not_empty (rw e at h))
    | inr (m, e) ↦
        let (key, f) = find_in_key_map-found s.channel_assignments app_id ctx_id e in
        r.masks_there key m f i (rw e at h)
  ]
    where
      not_empty : false ≡ true → ⊥
      not_empty e = cc

  -- No accepted message is lost.
  pub filter_and_call_delivers :
      IsRoutable s
      → accepted ≡ true
      → (k : ℕ) × (k < length s.channels)
        × (occurs k (filter_and_call s app_id ctx_id log_level) ≡ true)
  filter_and_call_delivers r a = elim (Bool-cases (mask_none assigned)) [
    | inl e ↦ (
      s.default_channel,
      r.default_there,
      ground (arith, filter_and_call-occurs s.default_channel),
    )
    | inr e ↦
        let (k, _, h) = mask_none_not assigned e in
        let lt = assigned_there r k h in (k, lt, ground (arith, filter_and_call-occurs k))
  ]
