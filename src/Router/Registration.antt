-- ===== src/Router/Registration.antt =====
-- What a registered type does to the records of its identifier.
use logging.Prelude.{
  ℕ, ◌-◌, ◌<◌, ◌≡◌, refl, sym, ap, ◌∙◌, inl, inr, true, false, Option, none, some, List, [], ◌∷◌,
  ◌++◌, map, arith, ltb, leb, Bool-cases, Option-cases, length, drop, length-append, take-append,
  drop-append, drop-drop, u32_mod,
}
use logging.Router.Parser.{logger_unpack_string, is_refused}
use logging.Queue.Bytes.{to_bytes, of_bytes, length-to_bytes}
use logging.Router.Parser.{IndexParser, LogParser, add_incoming_type}
use logging.Router.Parser.{TypeInfo, equal_range, index_parser_of}
use logging.Channel.State.{set_at}
use logging.DltServer.Ids.{dltid}
use logging.MessagePassing.Consistency.{set_at_other}
use logging.Router.Parser.{
  index_parse, call_global, parse_with, parse_shared_memory_record, type_handler, any_handler,
}
use logging.SharedMemory.Records.{BufferEntryHeader}
use logging.MessagePassing.Consistency.{set_at_same}

-- The parameters of a registration, as logparser.cpp describes them: a version 0, the identifiers of ECU
-- and application, the length of the name and the name, and whatever follows.
abbrev pub registration : List ℕ → List ℕ → List ℕ → List ℕ → List ℕ
registration ecu app name rest =
    0 ∷ 0 ∷ 0 ∷ 0 ∷ ecu ++ (app ++ (to_bytes 4 (length name) ++ (name ++ rest)))

of_bytes-to_bytes4 : (n : ℕ) → n < u32_mod → of_bytes (to_bytes 4 n) ≡ n
unfolding to_bytes of_bytes
of_bytes-to_bytes4 n h = omega arith

logger_unpack_string-name :
    (name rest : List ℕ)
    → length name < u32_mod
    → logger_unpack_string (to_bytes 4 (length name) ++ (name ++ rest)) ≡ name
unfolding logger_unpack_string
logger_unpack_string-name name rest h =
    rw
      (
        take-append (to_bytes 4 (length name)) (name ++ rest)
            (sym (length-to_bytes 4 (length name))),
        drop-append (to_bytes 4 (length name)) (name ++ rest)
            (sym (length-to_bytes 4 (length name))),
        of_bytes-to_bytes4 (length name) h,
      )
      (rw (fits, take-append name rest {n = length name} refl) refl)
  where
    fits : leb (length name) (length (name ++ rest)) ≡ true
    fits = ground (arith, length-append name rest)

module _ (ecu app name rest : List ℕ) (ecu4 : length ecu ≡ 4) (app4 : length app ≡ 4) where
  behind_app : drop 12 (registration ecu app name rest) ≡ to_bytes 4 (length name) ++ (name ++ rest)
  behind_app =
      sym (drop-drop 4 4 (ecu ++ (app ++ (to_bytes 4 (length name) ++ (name ++ rest)))))
      ∙ (ap (drop 4) (drop-append ecu _ (sym ecu4)) ∙ drop-append app _ (sym app4))

  behind_ecu :
      drop 8 (registration ecu app name rest) ≡ app ++ (to_bytes 4 (length name) ++ (name ++ rest))
  behind_ecu = drop-append ecu _ (sym ecu4)

  registration-accepted : 0 < length name → is_refused (registration ecu app name rest) ≡ false
  unfolding is_refused
  registration-accepted h = ground (arith, long)
    where
      long : 16 < length (registration ecu app name rest)
      long = omega (
        arith,
        length-append ecu (app ++ (to_bytes 4 (length name) ++ (name ++ rest))),
        length-append app (to_bytes 4 (length name) ++ (name ++ rest)),
        length-append (to_bytes 4 (length name)) (name ++ rest),
        length-to_bytes 4 (length name),
        length-append name rest,
      )

module _ {Descriptor : Type 0} (get_dlt_msg_desc : List ℕ → Option Descriptor) where
  -- Any registrations, one after the other.
  unfoldable pub add_all : List (ℕ × List ℕ) → LogParser Descriptor → LogParser Descriptor
  add_all [] parser = parser
  add_all ((index, params) ∷ types) parser =
      add_all types (add_incoming_type get_dlt_msg_desc index params parser)

  -- The maps of handlers are those of the construction.
  abbrev SameHandlers : LogParser Descriptor → LogParser Descriptor → Type 0
  SameHandlers p q =
      (q.handle_request_map ≡ p.handle_request_map) × (q.global_handlers ≡ p.global_handlers)

  add_incoming_type-new :
      (index : ℕ) (params : List ℕ) (parser : LogParser Descriptor)
      → is_refused params ≡ false
      → parser.index_parser_map index ≡ none
      → add_incoming_type get_dlt_msg_desc index params parser ≡ record parser {
        index_parser_map =
            set_at index
              (some (index_parser_of get_dlt_msg_desc index params parser))
              parser.index_parser_map;
      }
  unfolding add_incoming_type
  add_incoming_type-new index params parser r f = rw (r, f, add_incoming_type) refl

  add_incoming_type-kept :
      (index j : ℕ) (params : List ℕ) (parser : LogParser Descriptor) {old : IndexParser Descriptor}
      → parser.index_parser_map j ≡ some old
      → ((add_incoming_type get_dlt_msg_desc index params parser).index_parser_map j ≡ some old)
        × SameHandlers parser (add_incoming_type get_dlt_msg_desc index params parser)
  unfolding add_incoming_type
  add_incoming_type-kept index j params parser {old} e = elim (Bool-cases (is_refused params)) [
    | inl r ↦ rw (r, add_incoming_type) (e, (refl, refl))
    | inr r ↦ elim (Option-cases (parser.index_parser_map index)) [
      | inr (w, f) ↦ rw (r, f, add_incoming_type) (e, (refl, refl))
      | inl f ↦ rw (r, f, add_incoming_type) (kept f, (refl, refl))
    ]
  ]
    where
      clash : {x : IndexParser Descriptor} → none ≡ some x → ⊥
      clash h = cc

      kept :
          parser.index_parser_map index ≡ none
          → set_at index
              (some (index_parser_of get_dlt_msg_desc index params parser))
              parser.index_parser_map
              j
            ≡ some old
      kept f =
          set_at_other {A = Option (IndexParser Descriptor)} index j _ parser.index_parser_map
            (λ same. clash (sym f ∙ (ap parser.index_parser_map same ∙ e)))
          ∙ e

  add_all-kept :
      (types : List (ℕ × List ℕ)) (j : ℕ) (parser : LogParser Descriptor)
      {old : IndexParser Descriptor}
      → parser.index_parser_map j ≡ some old
      → ((add_all types parser).index_parser_map j ≡ some old)
        × SameHandlers parser (add_all types parser)
  unfolding add_all
  add_all-kept [] j parser e = (e, (refl, refl))
  add_all-kept ((index, params) ∷ types) j parser e =
      let (f, g) = add_incoming_type-kept index j params parser e in
      let (h, i) =
        add_all-kept types j (add_incoming_type get_dlt_msg_desc index params parser) f in
      (h, (i.0 ∙ g.0, i.1 ∙ g.1))

  -- What the parser notes of a type.
  abbrev pub info_of : ℕ → List ℕ → List ℕ → List ℕ → List ℕ → TypeInfo Descriptor
  info_of index ecu app name rest = record {
    nv_msg_desc = get_dlt_msg_desc name;
    id = index;
    params = registration ecu app name rest;
    type_name = name;
    ecu_id = dltid ecu;
    app_id = dltid app;
  }

  module _ (ecu app name rest : List ℕ) (ecu4 : length ecu ≡ 4) (app4 : length app ≡ 4)
      (named : 0 < length name) (short : length name < u32_mod) where
    index_parser_of-registration :
        (index : ℕ) (parser : LogParser Descriptor)
        → index_parser_of get_dlt_msg_desc index (registration ecu app name rest) parser ≡ record {
          info = info_of index ecu app name rest;
          handlers_ = equal_range name parser.handle_request_map;
        }
    unfolding index_parser_of
    index_parser_of-registration index parser =
        rw
          (
            behind_app ecu app name rest ecu4 app4,
            logger_unpack_string-name name rest short,
            take-append ecu (app ++ (to_bytes 4 (length name) ++ (name ++ rest))) {n = 4}
                (sym ecu4),
            behind_ecu ecu app name rest ecu4 app4,
            take-append app (to_bytes 4 (length name) ++ (name ++ rest)) {n = 4} (sym app4),
          )
          refl

    -- A record of a type that was registered, whatever types are registered after it, is given to
    -- exactly the handlers of the type's name, with the time and the bytes of the record, and then to
    -- all global handlers with what the registration said. The first registration of an identifier
    -- is the one that counts.
    pub parse-registered :
        {TimePoint : Type 0} (parser : LogParser Descriptor) (later : List (ℕ × List ℕ))
        (header : BufferEntryHeader TimePoint) (bytes : List ℕ)
        → parser.index_parser_map header.type_identifier ≡ none
        → length bytes < u32_mod
        → let index = header.type_identifier in
          parse_shared_memory_record
            (add_all later
              (add_incoming_type get_dlt_msg_desc index (registration ecu app name rest) parser))
            header
            bytes
          ≡ map
              (λ h. type_handler h header.time_stamp bytes)
              (equal_range name parser.handle_request_map)
            ++ map
                (λ h. any_handler h (info_of index ecu app name rest) header.time_stamp bytes)
                parser.global_handlers
    unfolding parse_shared_memory_record parse_with index_parse call_global
    parse-registered parser later header bytes e small =
        let index = header.type_identifier in
        let params = registration ecu app name rest in
        let new =
          add_incoming_type-new index params parser
            (registration-accepted ecu app name rest ecu4 app4 named) e in
        let first = add_incoming_type get_dlt_msg_desc index params parser in
        let found : first.index_parser_map index
            ≡ some (index_parser_of get_dlt_msg_desc index params parser) =
          ap (λ (q : LogParser Descriptor). q.index_parser_map index) new
          ∙ set_at_same {A = Option (IndexParser Descriptor)} index _ parser.index_parser_map in
        let (kept, handlers) = add_all-kept later index first found in
        rw (kept, index_parser_of-registration index parser)
          (rw (handlers.1, ap (λ (q : LogParser Descriptor). q.global_handlers) new, not_long small)
            refl)
      where
        not_long : length bytes < u32_mod → ltb (u32_mod - 1) (length bytes) ≡ false
        not_long h = ground arith
