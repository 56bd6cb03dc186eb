-- ===== src/DltServer/Invariant.antt =====
-- Construction and every diagnostic job keep the server routable, so no accepted message is lost.
use logging.Prelude.{
  ℕ, zero, suc, ◌+◌, ◌≤◌, ◌<◌, ◌≡◌, refl, sym, ap, inl, inr, Bool, true, false, not, none, some,
  List, [], ◌∷◌, arith, leb, if◌then◌else◌, Bool-cases, Option-cases, length, length-append,
}
use logging.DltServer.Ids.{DltidT}
use logging.DltServer.Maps.{
  Key, Found-nil, find_entry, Found-emplace, Found-assign, Found-erase_entry,
}
use logging.DltServer.Config.{
  LogLevels, ChannelDescription, StaticConfig, PersistentConfig, AssignmentAction, add, remove,
  dltid_key, pair_key,
}
use logging.DltServer.Server.{
  Channelmask, single_bit, mask_or, mask_and_not, mask_none, DltLogChannel, DltLogServer,
  store_threshold, change_assignment,
}
use logging.DltServer.Startup.{
  initial_server, is_empty, load_settings, init_log_channels_default, reload_channels,
  create_channels, init_channels, init_log_channels, new_server,
}
use logging.DltServer.Filtering.{IsRoutable}
use logging.DltServer.Routable.{MaskBelow, NamesBelow, MasksBelow, load_assignments-Below}

pub length-store_threshold :
    (cs : List DltLogChannel) (i t : ℕ) → length (store_threshold cs i t) ≡ length cs
unfolding store_threshold
length-store_threshold [] i t = refl
length-store_threshold (c ∷ cs) zero t = refl
length-store_threshold (c ∷ cs) (suc i) t = ap suc (length-store_threshold cs i t)

length-reload_channels :
    (levels : LogLevels) (b : Bool) (config : PersistentConfig)
    (ds : List (DltidT × ChannelDescription)) (cs : List DltLogChannel)
    → length (reload_channels levels b config ds cs) ≡ length cs
unfolding reload_channels
length-reload_channels levels b config ds [] = refl
length-reload_channels levels b config ds (c ∷ cs) =
    ap suc (length-reload_channels levels b config ds cs)

none_not_some : {A : Type 0} {x : A} → none ≡ some x → ⊥
none_not_some e = cc

found_nothing :
    {K V : Type 0} ⦃key : Key K⦄ (m : List (K × V)) (k : K) {v : V}
    → m ≡ []
    → find_entry k m ≡ some v
    → ⊥
unfolding find_entry
found_nothing m k e f = none_not_some (rw e at f)

some_channels : (ds : List (DltidT × ChannelDescription)) → is_empty ds ≡ false → 0 < length ds
some_channels [] e = absurd (ground (arith, e))
some_channels (d ∷ ds) e = omega arith

module _ {n i : ℕ} (lt : i < n) where
  pub change_assignment-MasksBelow :
      (key : DltidT × DltidT) (flag : AssignmentAction) (m : List ((DltidT × DltidT) × Channelmask))
      → MasksBelow n m
      → MasksBelow n (change_assignment key (single_bit i) flag m)
  unfolding change_assignment
  change_assignment-MasksBelow key add m h = elim (Option-cases (find_entry key m)) [
    | inl e ↦ rw (e, change_assignment) (Found-emplace key (single_bit i) m (λ j b. ground arith) h)
    | inr (w, e) ↦
        rw (e, change_assignment)
          (Found-assign key (mask_or w (single_bit i)) m (λ j b. ground (arith, h key w e j)) h)
  ]
  change_assignment-MasksBelow key remove m h = elim (Option-cases (find_entry key m)) [
    | inl e ↦ rw (e, change_assignment) h
    | inr (w, e) ↦ elim (Bool-cases (mask_none (mask_and_not w (single_bit i)))) [
      | inl c ↦ rw (e, change_assignment) (rw c (Found-erase_entry key m h))
      | inr c ↦
          rw (e, change_assignment)
            (rw c (
              Found-assign key (mask_and_not w (single_bit i)) m
                (λ j b. ground (arith, h key w e j)) h))
    ]
  ]

module _ {Double : Type 0} where
  load_settings-IsRoutable :
      (b : Bool) (config : PersistentConfig) (s : DltLogServer Double)
      → length s.channels ≤ 32
      → s.default_channel < length s.channels
      → NamesBelow (length s.channels) s.channel_nums
      → IsRoutable (load_settings b config s)
  unfolding load_settings
  load_settings-IsRoutable b config s few d names =
      let (names', masks') =
        load_assignments-Below (omega arith)
          (if b then config.channel_assignments else s.static_config.channel_assignments)
          s.channel_nums [] names (Found-nil (MaskBelow (length s.channels))) in
      record { few = few; default_there = d; names_there = names'; masks_there = masks' }

  create_channels-IsRoutable :
      (levels : LogLevels) (b : Bool) (config : PersistentConfig) (i : ℕ)
      (ds : List (DltidT × ChannelDescription)) (s : DltLogServer Double) (n : ℕ)
      → i + length ds ≡ n
      → length s.channels ≡ i
      → s.default_channel < n
      → NamesBelow n s.channel_nums
      → let t = create_channels levels b config i ds s in
        (length t.channels ≡ n) × (t.default_channel < n) × NamesBelow n t.channel_nums
  unfolding create_channels
  create_channels-IsRoutable levels b config i [] s n e l d h = (omega arith, d, h)
  create_channels-IsRoutable levels b config i ((name, c) ∷ ds) s n e l d h =
      create_channels-IsRoutable levels b config (i + 1) ds _ n (omega arith)
        (omega (arith, l, length-append s.channels (_ ∷ []))) (ground arith)
        (Found-assign name i s.channel_nums (omega arith) h)

  -- What keeps the number of the channels and the maps keeps the server routable.
  pub IsRoutable-same :
      (s t : DltLogServer Double)
      → IsRoutable s
      → length t.channels ≡ length s.channels
      → t.default_channel < length s.channels
      → t.channel_nums ≡ s.channel_nums
      → t.channel_assignments ≡ s.channel_assignments
      → IsRoutable t
  IsRoutable-same s t r l d n m = record {
    few = omega (arith, r.few);
    default_there = omega arith;
    names_there = λ name i e. rw l (r.names_there name i (rw (sym n) e));
    masks_there = λ key mask e i b. rw l (r.masks_there key mask (rw (sym m) e) i b);
  }

  length-off_first :
      (levels : LogLevels) (s : DltLogServer Double)
      → length (init_log_channels_default levels true s).channels ≡ length s.channels
  unfolding init_log_channels_default
  length-off_first levels s = by_channels s.channels
    where
      by_channels :
          (cs : List DltLogChannel)
          → length (elim cs as (λ x. List DltLogChannel) [
            | [] ↦ []
            | c ∷ cs' ↦ record c { channel_threshold = levels.k_off } ∷ cs'
          ])
            ≡ length cs
      by_channels [] = refl
      by_channels (c ∷ cs) = refl

  init_log_channels_default-IsRoutable :
      (levels : LogLevels) (s : DltLogServer Double)
      → IsRoutable s
      → IsRoutable (init_log_channels_default levels true s)
  unfolding init_log_channels_default
  init_log_channels_default-IsRoutable levels s r =
      IsRoutable-same s _ r (length-off_first levels s) (omega (arith, r.default_there)) refl refl

  pub init_log_channels-reload :
      {Db : Type 0} (levels : LogLevels) (reader : Db → PersistentConfig) (db : Db)
      (s : DltLogServer Double)
      → IsRoutable s
      → IsRoutable (init_log_channels levels reader true db s)
  unfolding init_log_channels init_channels
  init_log_channels-reload levels reader db s r =
      elim (Bool-cases (is_empty s.static_config.channels)) [
        | inl e ↦ rw e (init_log_channels_default-IsRoutable levels s r)
        | inr e ↦ elim (Bool-cases (leb 32 (length s.static_config.channels))) [
          | inl l ↦ rw (e, l) (init_log_channels_default-IsRoutable levels s r)
          | inr l ↦ rw (e, l) (reloaded (reader db))
        ]
      ]
    where
      reloaded :
          (config : PersistentConfig)
          → IsRoutable (
              load_settings
                (not (is_empty config.channels))
                config
                (init_channels levels true config (record s { coredump_channel = none })))
      reloaded config =
          load_settings-IsRoutable _ config _ (omega (arith, r.few, same config))
            (omega (arith, r.default_there, same config))
            (λ name i e. omega (arith, r.names_there name i e, same config))
        where
          same :
              (config : PersistentConfig)
              → length (
                  reload_channels levels
                    (not (is_empty config.channels))
                    config
                    s.static_config.channels
                    s.channels)
                ≡ length s.channels
          same config = length-reload_channels levels _ config s.static_config.channels s.channels

  test_channel-IsRoutable :
      (levels : LogLevels) (s : DltLogServer Double)
      → s.channels ≡ []
      → s.channel_nums ≡ []
      → s.channel_assignments ≡ []
      → IsRoutable (init_log_channels_default levels false s)
  unfolding init_log_channels_default
  test_channel-IsRoutable levels s c n a = record {
    few = rw c (omega arith);
    default_there = rw c (omega arith);
    names_there = λ name i e. absurd (found_nothing _ name n e);
    masks_there = λ key m e i b. absurd (found_nothing _ key a e);
  }

  configured-IsRoutable :
      (levels : LogLevels) (b : Bool) (config : PersistentConfig)
      (ds : List (DltidT × ChannelDescription)) (s : DltLogServer Double)
      → is_empty ds ≡ false
      → length ds < 32
      → s.channels ≡ []
      → s.channel_nums ≡ []
      → s.default_channel ≡ 0
      → IsRoutable (load_settings b config (create_channels levels b config 0 ds s))
  configured-IsRoutable levels b config ds s e few c nums d =
      let (n, d', names) =
        create_channels-IsRoutable levels b config 0 ds s (length ds) (omega arith) (ap length c)
          (omega (arith, some_channels ds e, d))
          (λ name i f. absurd (found_nothing _ name nums f)) in
      load_settings-IsRoutable b config _ (omega (arith, n, few)) (omega (arith, n, d'))
        (λ name i f. omega (arith, n, names name i f))

  pub new_server-IsRoutable :
      {Db : Type 0} (levels : LogLevels) (reader : Db → PersistentConfig) (zero_double : Double)
      (config : StaticConfig Double) (enabled : Bool) (db : Db)
      → IsRoutable (new_server levels reader zero_double config enabled db)
  unfolding new_server init_log_channels init_channels
  new_server-IsRoutable levels reader zero_double config enabled db =
      elim (Bool-cases (is_empty config.channels)) [
        | inl e ↦ rw e (test_channel-IsRoutable levels _ refl refl refl)
        | inr e ↦ elim (Bool-cases (leb 32 (length config.channels))) [
          | inl l ↦ rw (e, l) (test_channel-IsRoutable levels _ refl refl refl)
          | inr l ↦
              rw (e, l)
                (configured-IsRoutable levels _ (reader db) config.channels
                  (initial_server zero_double config enabled) e (ground arith) refl refl refl)
        ]
      ]
