-- ===== src/Router/Outputs.antt =====
-- How many outputs of a kind a list of outputs has.
use logging.Prelude.{ℕ, ◌+◌, ◌≡◌, refl, Bool, true, false, Option, List, [], ◌∷◌, ◌++◌, map, arith}
use logging.Router.Session.{SessionOutput, handled, acquisition_finalized, acquire_request_sent}
use logging.Router.Parser.{LogParser, HandlerCall, add_incoming_type, parse_shared_memory_record}
use logging.Router.Ticks.{route_calls}
use logging.SharedMemory.Records.{CallbackCall, type_registration, new_record}

module _ {Descriptor TimePoint : Type 0} where
  -- How many requests, finalized acquisitions and calls of handlers a list has.
  abbrev pub is_request : SessionOutput Descriptor TimePoint → ℕ
  is_request acquire_request_sent = 1
  is_request _ = 0

  abbrev pub is_finalization : SessionOutput Descriptor TimePoint → ℕ
  is_finalization (acquisition_finalized _) = 1
  is_finalization _ = 0

  abbrev pub is_handled : SessionOutput Descriptor TimePoint → ℕ
  is_handled (handled _) = 1
  is_handled _ = 0

  unfoldable pub total :
      (SessionOutput Descriptor TimePoint → ℕ) → List (SessionOutput Descriptor TimePoint) → ℕ
  total f [] = 0
  total f (o ∷ os) = f o + total f os

  pub total-append :
      (f : SessionOutput Descriptor TimePoint → ℕ)
      (xs ys : List (SessionOutput Descriptor TimePoint))
      → total f (xs ++ ys) ≡ total f xs + total f ys
  unfolding total
  total-append f [] ys = omega arith
  total-append f (x ∷ xs) ys = omega (arith, total-append f xs ys)

  pub total_last :
      (f : SessionOutput Descriptor TimePoint → ℕ)
      (xs ys : List (SessionOutput Descriptor TimePoint)) (o : SessionOutput Descriptor TimePoint)
      → total f (xs ++ (ys ++ o ∷ [])) ≡ total f xs + (total f ys + f o)
  unfolding total
  total_last f xs ys o = omega (arith, total-append f xs (ys ++ o ∷ []), total-append f ys (o ∷ []))

  pub total_parts :
      (f : SessionOutput Descriptor TimePoint → ℕ)
      (ws xs ys zs : List (SessionOutput Descriptor TimePoint))
      → total f (ws ++ ((xs ++ ys) ++ zs)) ≡ total f ws + (total f xs + (total f ys + total f zs))
  total_parts f ws xs ys zs = omega (
    arith,
    total-append f ws ((xs ++ ys) ++ zs),
    total-append f (xs ++ ys) zs,
    total-append f xs ys,
  )

  total-handled :
      (f : SessionOutput Descriptor TimePoint → ℕ)
      → ((c : HandlerCall Descriptor TimePoint) → f (handled c) ≡ 0)
      → (calls : List (HandlerCall Descriptor TimePoint)) → total f (map handled calls) ≡ 0
  unfolding total
  total-handled f h [] = refl
  total-handled f h (c ∷ calls) = omega (arith, h c, total-handled f h calls)

module _ {Descriptor TimePoint : Type 0} (get_dlt_msg_desc : List ℕ → Option Descriptor)
    (f : SessionOutput Descriptor TimePoint → ℕ) where
  pub route_calls-total :
      ((c : HandlerCall Descriptor TimePoint) → f (handled c) ≡ 0)
      → (quota : Bool) (calls : List (CallbackCall TimePoint)) (parser : LogParser Descriptor)
      → total f (route_calls get_dlt_msg_desc quota calls parser).1.0 ≡ 0
  unfolding route_calls total
  route_calls-total h quota [] parser = refl
  route_calls-total h quota (type_registration id bytes ∷ calls) parser =
      route_calls-total h quota calls (add_incoming_type get_dlt_msg_desc id bytes parser)
  route_calls-total h true (new_record header bytes ∷ calls) parser =
      route_calls-total h true calls parser
  route_calls-total h false (new_record header bytes ∷ calls) parser = omega (
    arith,
    total-append f (map handled (parse_shared_memory_record parser header bytes))
        (route_calls get_dlt_msg_desc false calls parser).1.0,
    total-handled f h (parse_shared_memory_record parser header bytes),
    route_calls-total h false calls parser,
  )

  -- Over the limit nothing is handled.
  pub route_calls-over_limit :
      (calls : List (CallbackCall TimePoint)) (parser : LogParser Descriptor)
      → total f (route_calls get_dlt_msg_desc true calls parser).1.0 ≡ 0
  unfolding route_calls total
  route_calls-over_limit [] parser = refl
  route_calls-over_limit (type_registration id bytes ∷ calls) parser =
      route_calls-over_limit calls (add_incoming_type get_dlt_msg_desc id bytes parser)
  route_calls-over_limit (new_record header bytes ∷ calls) parser =
      route_calls-over_limit calls parser
