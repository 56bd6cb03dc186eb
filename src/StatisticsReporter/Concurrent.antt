-- ===== src/StatisticsReporter/Concurrent.antt =====
-- `Update` on any number of threads: each atomic access is a step of one thread. The counters change
-- at any time, so the values that a report reads are those of its step.
use logging.Prelude.{
  ℕ, ◌≡◌, refl, ap, ◌∙◌, ◌≢◌, inl, inr, Bool, true, false, Option, List, [], ◌∷◌, ◌++◌, arith,
  ℕ_discrete, ◌==◌, if◌then◌else◌, Bool-cases,
}
use logging.Channel.State.{set_at}
use logging.StatisticsReporter.Reporter.{
  make_reporter, report_statistics, is_report_overdue, Report, increment_message_too_long,
  increment_no_slot_available, StatisticsReporter,
}

-- Where a thread stands in `Update`, with its argument `now`.
pub data Thread : Type 0 where
  outside : Thread
  overdue : ℕ → Thread
  reporting : ℕ → Thread
  reported : ℕ → Thread
  stored : Thread

pub record System : Type 0 where
  pub reporter : StatisticsReporter
  pub threads : ℕ → Thread
  pub reports : List (Option Report)

-- The steps; the first argument is the thread.
pub data ReporterStep : System → System → Type 0 where
  count_no_slot :
      (y : System) → ReporterStep y (record y { reporter = increment_no_slot_available y.reporter })
  count_too_long :
      (y : System) → ReporterStep y (record y { reporter = increment_message_too_long y.reporter })
  check :
      (y : System) (i now : ℕ)
      → y.threads i ≡ outside
      → is_report_overdue now y.reporter.last_report_time_point_nanoseconds
          y.reporter.report_interval
        ≡ true
      → ReporterStep y (record y { threads = set_at i (overdue now) y.threads })
  take_flag :
      (y : System) (i now : ℕ)
      → y.threads i ≡ overdue now
      → y.reporter.currently_reporting ≡ false
      → ReporterStep y (record y {
        reporter = record (y.reporter) { currently_reporting = true };
        threads = set_at i (reporting now) y.threads;
      })
  give_up :
      (y : System) (i now : ℕ)
      → y.threads i ≡ overdue now
      → ReporterStep y (record y { threads = set_at i outside y.threads })
  report :
      (y : System) (i now : ℕ) (start_record : Bool)
      → y.threads i ≡ reporting now
      → ReporterStep y (record y {
        threads = set_at i (reported now) y.threads;
        reports =
            y.reports
            ++ (report_statistics start_record y.reporter.no_slot_available_counter
                  y.reporter.message_too_long_counter y.reporter.number_of_slots
                  y.reporter.slot_size_bytes
                ∷ []);
      })
  set_time :
      (y : System) (i now : ℕ)
      → y.threads i ≡ reported now
      → ReporterStep y (record y {
        reporter = record (y.reporter) { last_report_time_point_nanoseconds = now };
        threads = set_at i stored y.threads;
      })
  drop_flag :
      (y : System) (i : ℕ)
      → y.threads i ≡ stored
      → ReporterStep y (record y {
        reporter = record (y.reporter) { currently_reporting = false };
        threads = set_at i outside y.threads;
      })

pub data Reachable (y : System) : System → Type 0 where
  here : Reachable y y
  next : {z w : System} → Reachable y z → ReporterStep z w → Reachable y w

-- The thread holds the reporting state.
unfoldable pub is_inside : Thread → Bool
is_inside outside = false
is_inside (overdue now) = false
is_inside (reporting now) = true
is_inside (reported now) = true
is_inside stored = true

-- A thread inside is the only one, and the flag says that there is one.
record IsExclusive (y : System) : Type 0 where
  alone : (i j : ℕ) → is_inside (y.threads i) ≡ true → is_inside (y.threads j) ≡ true → i ≡ j
  flagged : (i : ℕ) → is_inside (y.threads i) ≡ true → y.reporter.currently_reporting ≡ true

inside_set :
    (i : ℕ) (t : Thread) (f : ℕ → Thread) (j : ℕ)
    → is_inside (set_at i t f j) ≡ (if j == i then is_inside t else is_inside (f j))
inside_set i t f j = ground arith

-- A thread that was inside and is still inside adds none.
inside_kept :
    (i : ℕ) (t : Thread) (f : ℕ → Thread) (j : ℕ)
    → is_inside (f i) ≡ true
    → is_inside (set_at i t f j) ≡ true
    → is_inside (f j) ≡ true
inside_kept i t f j e h = elim (ℕ_discrete j i) [
  | yes same ↦ ap (λ k. is_inside (f k)) same ∙ e
  | no other ↦ ground (arith, inside_set i t f j)
]

step-IsExclusive : {y z : System} → ReporterStep y z → IsExclusive y → IsExclusive z
unfolding is_inside increment_no_slot_available increment_message_too_long
step-IsExclusive (count_no_slot y) x = record { alone = x.alone; flagged = x.flagged }
step-IsExclusive (count_too_long y) x = record { alone = x.alone; flagged = x.flagged }
step-IsExclusive (check y i now e o) x = record {
  alone = λ j k a b. ground (
    arith,
    x.alone j k,
    inside_set i (overdue now) y.threads j,
    inside_set i (overdue now) y.threads k,
  );
  flagged = λ j a. ground (arith, x.flagged j, inside_set i (overdue now) y.threads j);
}
step-IsExclusive (take_flag y i now e f) x = record {
  alone = λ j k a b. ground (
    arith,
    x.flagged j,
    x.flagged k,
    inside_set i (reporting now) y.threads j,
    inside_set i (reporting now) y.threads k,
  );
  flagged = λ j a. refl;
}
step-IsExclusive (give_up y i now e) x = record {
  alone = λ j k a b.
      ground
        (arith, x.alone j k, inside_set i outside y.threads j, inside_set i outside y.threads k);
  flagged = λ j a. ground (arith, x.flagged j, inside_set i outside y.threads j);
}
step-IsExclusive (report y i now r e) x = record {
  alone = λ j k a b.
      x.alone j k (inside_kept i (reported now) y.threads j (ap is_inside e) a)
        (inside_kept i (reported now) y.threads k (ap is_inside e) b);
  flagged = λ j a. x.flagged j (inside_kept i (reported now) y.threads j (ap is_inside e) a);
}
step-IsExclusive (set_time y i now e) x = record {
  alone = λ j k a b.
      x.alone j k (inside_kept i (stored) y.threads j (ap is_inside e) a)
        (inside_kept i (stored) y.threads k (ap is_inside e) b);
  flagged = λ j a. x.flagged j (inside_kept i (stored) y.threads j (ap is_inside e) a);
}
step-IsExclusive (drop_flag y i e) x = record {
  alone = λ j k a b.
      ground
        (arith, x.alone j k, inside_set i outside y.threads j, inside_set i outside y.threads k);
  flagged = λ j a. ground (arith, x.alone i j, inside_set i outside y.threads j, ap is_inside e);
}

abbrev pub initial : ℕ → ℕ → ℕ → System
initial report_interval number_of_slots slot_size_bytes = record {
  reporter = make_reporter report_interval number_of_slots slot_size_bytes;
  threads = λ i. outside;
  reports = [];
}

Reachable-IsExclusive : {y z : System} → Reachable y z → IsExclusive y → IsExclusive z
Reachable-IsExclusive here x = x
Reachable-IsExclusive (next r st) x = step-IsExclusive st (Reachable-IsExclusive r x)

initial-IsExclusive :
    (report_interval number_of_slots slot_size_bytes : ℕ)
    → IsExclusive (initial report_interval number_of_slots slot_size_bytes)
unfolding is_inside
initial-IsExclusive report_interval number_of_slots slot_size_bytes = record {
  alone = λ k l c d. ground arith;
  flagged = λ k c. ground arith;
}

-- However the accesses of any number of threads interleave, while a thread is between the
-- acquisition of the reporting state and its release, no other thread is, and the flag is set.
pub one_reporter :
    (report_interval number_of_slots slot_size_bytes : ℕ) {y : System}
    → Reachable (initial report_interval number_of_slots slot_size_bytes) y
    → (i j : ℕ) → i ≢ j
    → is_inside (y.threads i) ≡ true
    → (is_inside (y.threads j) ≡ false) × (y.reporter.currently_reporting ≡ true)
one_reporter report_interval number_of_slots slot_size_bytes {y} r i j apart inside =
    let x =
      Reachable-IsExclusive r
        (initial-IsExclusive report_interval number_of_slots slot_size_bytes) in
    (
      elim (Bool-cases (is_inside (y.threads j))) [
        | inl both ↦ absurd (apart (x.alone i j inside both))
        | inr out ↦ out
      ],
      x.flagged i inside,
    )
