-- ===== src/DltServer/Assignments.antt =====
-- What `SetLogChannelAssignment` does to the routes of messages.
use logging.Prelude.{
  ℕ, ◌≤◌, ◌<◌, ◌≡◌, refl, inl, inr, Bool, true, false, Option, none, some, List, arith,
  if◌then◌else◌, Bool-cases, Option-cases, length,
}
use logging.DltServer.Ids.{DltidT}
use logging.DltServer.Maps.{
  find_entry, value_or, find_entry-emplace, find_entry-assign, find_entry-erase_entry,
}
use logging.DltServer.Config.{
  AssignmentAction, remove, add, dltid_key, pair_key, pair_eq, pair_eq_iff,
}
use logging.DltServer.Server.{
  Channelmask, empty_mask, single_bit, mask_or, mask_and_not, mask_none, any_below, DltLogServer,
  set_log_channel_assignment, change_assignment,
}
use logging.DltServer.Routing.{
  find_in_key_map, is_accepted_by_filtering, assigned_to_channels, filter_and_call,
}
use logging.DltServer.Filtering.{occurs, filter_and_call-occurs, any_below-false}

-- The key's mask after `SetLogChannelAssignment`, and all other entries.
module _ (key : DltidT × DltidT) (i : ℕ) (m : List ((DltidT × DltidT) × Channelmask)) where
  change_assignment-other :
      (flag : AssignmentAction) (j : DltidT × DltidT)
      → pair_eq key j ≡ false
      → find_entry j (change_assignment key (single_bit i) flag m) ≡ find_entry j m
  unfolding change_assignment
  change_assignment-other add j e = elim (Option-cases (find_entry key m)) [
    | inl h ↦ ground (arith, find_entry-emplace key j (single_bit i) m)
    | inr (w, h) ↦ ground (arith, find_entry-assign key j (mask_or w (single_bit i)) m)
  ]
  change_assignment-other remove j e = elim (Option-cases (find_entry key m)) [
    | inl h ↦ ground arith
    | inr (w, h) ↦ ground (
      arith,
      find_entry-erase_entry key j m,
      find_entry-assign key j (mask_and_not w (single_bit i)) m,
    )
  ]

  -- Adding sets the channel's bit, and leaves the other bits of the mask as they were.
  change_assignment-add :
      find_entry key (change_assignment key (single_bit i) add m)
      ≡ some (elim (find_entry key m) [ none ↦ single_bit i | some w ↦ mask_or w (single_bit i) ])
  unfolding change_assignment
  change_assignment-add = elim (Option-cases (find_entry key m)) [
    | inl h ↦ ground (arith, find_entry-emplace key key (single_bit i) m, pair_eq_iff key key)
    | inr (w, h) ↦
        ground (arith, find_entry-assign key key (mask_or w (single_bit i)) m, pair_eq_iff key key)
  ]

  -- Removing clears the bit; a mask that becomes empty is not kept.
  change_assignment-remove :
      {w : Channelmask}
      → find_entry key m ≡ some w
      → find_entry key (change_assignment key (single_bit i) remove m) ≡ (
          if mask_none (mask_and_not w (single_bit i))
          then none
          else some (mask_and_not w (single_bit i)))
  unfolding change_assignment
  change_assignment-remove {w} h = ground (
    arith,
    pair_eq_iff key key,
    find_entry-erase_entry key key m,
    find_entry-assign key key (mask_and_not w (single_bit i)) m,
  )

mask_bit_not_none : (m : Channelmask) (i : ℕ) → i < 32 → m i ≡ true → mask_none m ≡ false
unfolding mask_none
mask_bit_not_none m i lt h = elim (Bool-cases (any_below 32 m)) [
  | inl e ↦ ground arith
  | inr e ↦ absurd (clash (any_below-false 32 m e i lt) h)
]
  where
    clash : {b : Bool} → b ≡ false → b ≡ true → ⊥
    clash p q = cc

find_in_key_map-exact :
    {V : Type 0} (m : List ((DltidT × DltidT) × V)) (a c : DltidT) {v : V}
    → find_entry (a, c) m ≡ some v
    → find_in_key_map m a c ≡ some v
unfolding find_in_key_map
find_in_key_map-exact m a c h = ground arith

module _ {Double : Type 0} (s : DltLogServer Double) (app_id ctx_id : DltidT) (i : ℕ) where
  -- The server after channel `i` has been assigned.
  abbrev assigned_server : DltLogServer Double
  assigned_server = record s {
    channel_assignments =
        change_assignment (app_id, ctx_id) (single_bit i) add s.channel_assignments;
  }

  same_filter :
      (log_level : ℕ)
      → is_accepted_by_filtering assigned_server app_id ctx_id log_level
        ≡ is_accepted_by_filtering s app_id ctx_id log_level
  unfolding is_accepted_by_filtering
  same_filter log_level = refl

  new_bit : i < 32 → assigned_to_channels assigned_server app_id ctx_id i ≡ true
  unfolding assigned_to_channels
  new_bit lt =
      rw
        (find_in_key_map-exact assigned_server.channel_assignments app_id ctx_id
          (change_assignment-add (app_id, ctx_id) i s.channel_assignments))
        (added_bit (find_entry (app_id, ctx_id) s.channel_assignments) lt)
    where
      added_bit :
          (o : Option Channelmask)
          → i < 32
          → value_or
              (some (elim o [ none ↦ single_bit i | some w ↦ mask_or w (single_bit i) ]))
              empty_mask
              i
            ≡ true
      added_bit none lt = ground arith
      added_bit (some w) lt = ground arith

  routes :
      (log_level : ℕ)
      → i < length s.channels
      → length s.channels ≤ 32
      → is_accepted_by_filtering s app_id ctx_id log_level ≡ true
      → occurs i (filter_and_call assigned_server app_id ctx_id log_level) ≡ true
  routes log_level lt few ok = ground (
    arith,
    filter_and_call-occurs assigned_server app_id ctx_id log_level i,
    same_filter log_level,
    new_bit (omega arith),
    mask_bit_not_none (assigned_to_channels assigned_server app_id ctx_id) i (omega arith)
        (new_bit (omega arith)),
  )

-- Once a channel of the server is assigned to an application and context, every message of exactly
-- those that passes the filter is sent to that channel.
pub set_log_channel_assignment-routes :
    {Double : Type 0} (s : DltLogServer Double) (app_id ctx_id channel : DltidT) (i log_level : ℕ)
    → find_entry channel s.channel_nums ≡ some i
    → i < length s.channels
    → length s.channels ≤ 32
    → is_accepted_by_filtering s app_id ctx_id log_level ≡ true
    → occurs i (
        filter_and_call
          (set_log_channel_assignment app_id ctx_id channel add s).0
          app_id
          ctx_id
          log_level)
      ≡ true
unfolding set_log_channel_assignment
set_log_channel_assignment-routes s app_id ctx_id channel i log_level e lt few ok =
    rw (e, set_log_channel_assignment) (routes s app_id ctx_id i log_level lt few ok)
