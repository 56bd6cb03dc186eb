-- ===== src/DltServer/Levels.antt =====
-- What `SetLogLevel` does to the messages that are accepted.
use logging.Prelude.{
  ℕ, ◌≡◌, refl, ap, ◌∙◌, false, not, ◌||◌, none, some, List, arith, leb, if◌then◌else◌,
}
use logging.DltServer.Ids.{DltidT, no_id}
use logging.DltServer.Maps.{find_entry, erase_entry, find_entry-emplace, find_entry-erase_entry}
use logging.DltServer.Config.{
  ThresholdT, level, use_default, dltid_key, pair_key, pair_eq, pair_eq_iff,
}
use logging.DltServer.Server.{DltLogServer, set_log_level}
use logging.DltServer.Routing.{find_in_key_map, is_accepted_by_filtering}

-- The three lookups decide.
find_in_key_map-cong :
    {V : Type 0} (m m' : List ((DltidT × DltidT) × V)) (a c : DltidT)
    → find_entry (a, c) m ≡ find_entry (a, c) m'
    → find_entry (no_id, c) m ≡ find_entry (no_id, c) m'
    → find_entry (a, no_id) m ≡ find_entry (a, no_id) m'
    → find_in_key_map m a c ≡ find_in_key_map m' a c
unfolding find_in_key_map
find_in_key_map-cong m m' a c p q r = ground arith

module _ {Double : Type 0} (s : DltLogServer Double) (app_id ctx_id : DltidT) where
  abbrev after_level : ThresholdT → DltLogServer Double
  after_level t = (set_log_level app_id ctx_id t s).0

  -- The entry of the map after `SetLogLevel`, at every key.
  find_entry-set_log_level :
      (t : ThresholdT) (key : DltidT × DltidT)
      → find_entry key (after_level t).message_thresholds ≡ (
          if pair_eq (app_id, ctx_id) key
          then (elim t [ level l ↦ some l | use_default ↦ none ])
          else find_entry key s.message_thresholds)
  unfolding set_log_level
  find_entry-set_log_level (level l) key = ground (
    arith,
    pair_eq_iff (app_id, ctx_id) (app_id, ctx_id),
    find_entry-emplace (app_id, ctx_id) key l (erase_entry (app_id, ctx_id) s.message_thresholds),
    find_entry-erase_entry (app_id, ctx_id) key s.message_thresholds,
    find_entry-erase_entry (app_id, ctx_id) (app_id, ctx_id) s.message_thresholds,
  )
  find_entry-set_log_level use_default key =
      find_entry-erase_entry (app_id, ctx_id) key s.message_thresholds

  same_settings :
      (t : ThresholdT)
      → ((after_level t).filtering_enabled ≡ s.filtering_enabled)
        × ((after_level t).default_threshold ≡ s.default_threshold)
  unfolding set_log_level
  same_settings (level l) = (refl, refl)
  same_settings use_default = (refl, refl)

  own_key :
      (l log_level : ℕ)
      → is_accepted_by_filtering (after_level (level l)) app_id ctx_id log_level
        ≡ (not s.filtering_enabled || leb log_level l)
  unfolding is_accepted_by_filtering find_in_key_map
  own_key l log_level = ground (
    arith,
    same_settings (level l),
    pair_eq_iff (app_id, ctx_id) (app_id, ctx_id),
    find_entry-set_log_level (level l) (app_id, ctx_id),
  )

  other_key :
      (l : ℕ) (a c : DltidT) (log_level : ℕ)
      → pair_eq (app_id, ctx_id) (a, c) ≡ false
      → pair_eq (app_id, ctx_id) (no_id, c) ≡ false
      → pair_eq (app_id, ctx_id) (a, no_id) ≡ false
      → is_accepted_by_filtering (after_level (level l)) a c log_level
        ≡ is_accepted_by_filtering s a c log_level
  unfolding is_accepted_by_filtering
  other_key l a c log_level p q r =
      rw
        (
          (same_settings (level l)).0,
          (same_settings (level l)).1,
          find_in_key_map-cong (after_level (level l)).message_thresholds s.message_thresholds a c
              (kept (a, c) p) (kept (no_id, c) q) (kept (a, no_id) r),
        )
        refl
    where
      kept :
          (key : DltidT × DltidT)
          → pair_eq (app_id, ctx_id) key ≡ false
          → find_entry key (after_level (level l)).message_thresholds
            ≡ find_entry key s.message_thresholds
      kept key e =
          find_entry-set_log_level (level l) key
          ∙ ap (λ b. if b then some l else find_entry key s.message_thresholds) e

  -- After `SetLogLevel` with a level, messages of exactly that application and context pass the
  -- filter, if it is enabled, exactly up to that level; messages whose application and context, whose
  -- context alone and whose application alone are all other keys pass as before.
  pub set_log_level-accepted :
      (l log_level : ℕ) (a c : DltidT)
      → pair_eq (app_id, ctx_id) (a, c) ≡ false
      → pair_eq (app_id, ctx_id) (no_id, c) ≡ false
      → pair_eq (app_id, ctx_id) (a, no_id) ≡ false
      → (is_accepted_by_filtering (after_level (level l)) app_id ctx_id log_level
          ≡ (not s.filtering_enabled || leb log_level l))
        × (is_accepted_by_filtering (after_level (level l)) a c log_level
            ≡ is_accepted_by_filtering s a c log_level)
  set_log_level-accepted l log_level a c p q r =
      (own_key l log_level, other_key l a c log_level p q r)
