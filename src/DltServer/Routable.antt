-- ===== src/DltServer/Routable.antt =====
-- Every server that the constructor makes, after any commands, refers only to channels it has.
use logging.Prelude.{ℕ, ◌<◌, ◌≡◌, refl, true, false, Option, none, some, List, [], ◌∷◌, arith}
use logging.DltServer.Ids.{DltidT}
use logging.DltServer.Maps.{Found, Found-emplace, find_entry, emplace, value_or}
use logging.DltServer.Config.{dltid_key, pair_key}
use logging.DltServer.Server.{Channelmask, empty_mask, single_bit, mask_or}
use logging.DltServer.Loading.{channel_set, load_contexts, load_assignments}

abbrev pub MaskBelow : ℕ → Channelmask → Type 0
MaskBelow n m = (i : ℕ) → m i ≡ true → i < n

-- The indices that a map of names holds, and the bits of all masks, are below `n`.
abbrev pub NamesBelow : ℕ → List (DltidT × ℕ) → Type 0
NamesBelow n nums = Found (λ i. i < n) nums

abbrev pub MasksBelow : ℕ → List ((DltidT × DltidT) × Channelmask) → Type 0
MasksBelow n assignments = Found (MaskBelow n) assignments

module _ {n : ℕ} (pos : 0 < n) where
  channel_set-Below :
      (cs : List DltidT) (nums : List (DltidT × ℕ)) (m : Channelmask)
      → NamesBelow n nums
      → MaskBelow n m
      → NamesBelow n (channel_set cs (nums, m)).0 × MaskBelow n (channel_set cs (nums, m)).1
  unfolding channel_set
  channel_set-Below [] nums m h k = (h, k)
  channel_set-Below (c ∷ cs) nums m h k =
      channel_set-Below cs (emplace c 0 nums)
        (mask_or m (single_bit (value_or (find_entry c nums) 0))) (Found-emplace c 0 nums pos h)
        (λ i e. new_bit (find_entry c nums) (h c) i e)
    where
      new_bit :
          (o : Option ℕ)
          → ((v : ℕ) → o ≡ some v → v < n)
          → (i : ℕ) → mask_or m (single_bit (value_or o 0)) i ≡ true
          → i < n
      new_bit none b i e = ground (arith, k i)
      new_bit (some v) b i e = ground (arith, k i, b v refl)

  load_contexts-Below :
      (app : DltidT) (cs : List (DltidT × List DltidT)) (nums : List (DltidT × ℕ))
      (asg : List ((DltidT × DltidT) × Channelmask))
      → NamesBelow n nums
      → MasksBelow n asg
      → NamesBelow n (load_contexts app cs (nums, asg)).0
        × MasksBelow n (load_contexts app cs (nums, asg)).1
  unfolding load_contexts
  load_contexts-Below app [] nums asg h k = (h, k)
  load_contexts-Below app ((ctx, names) ∷ cs) nums asg h k =
      let (names', mask') =
        channel_set-Below names nums empty_mask h (λ i e. absurd (none_set e)) in
      load_contexts-Below app cs _ _ names' (Found-emplace (app, ctx) _ asg mask' k)
    where
      none_set : false ≡ true → ⊥
      none_set e = cc

  pub load_assignments-Below :
      (apps : List (DltidT × List (DltidT × List DltidT))) (nums : List (DltidT × ℕ))
      (asg : List ((DltidT × DltidT) × Channelmask))
      → NamesBelow n nums
      → MasksBelow n asg
      → NamesBelow n (load_assignments apps (nums, asg)).0
        × MasksBelow n (load_assignments apps (nums, asg)).1
  unfolding load_assignments
  load_assignments-Below [] nums asg h k = (h, k)
  load_assignments-Below ((app, cs) ∷ apps) nums asg h k =
      let (h', k') = load_contexts-Below app cs nums asg h k in
      load_assignments-Below apps _ _ h' k'
