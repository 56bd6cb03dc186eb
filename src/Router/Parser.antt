-- ===== src/Router/Parser.antt =====
-- logparser.cpp: LogParser, which knows the types that a process has registered and gives each record
-- to the handlers of its type. Handlers are numbers, and a call of one is an entry of a list.
use logging.Prelude.{
  ℕ, ◌-◌, Bool, true, false, not, ◌&&◌, ◌||◌, Option, none, some, List, [], ◌∷◌, ◌++◌, map, ltb,
  leb, ◌==◌, if◌then◌else◌, length, get_or, take, drop, u32_mod,
}
use logging.Channel.State.{set_at}
use logging.Queue.Bytes.{of_bytes}
use logging.DltServer.Ids.{DltidT, dltid}
use logging.SharedMemory.Records.{BufferEntryHeader}

abbrev pub same_bytes : List ℕ → List ℕ → Bool
same_bytes [] [] = true
same_bytes [] (y ∷ ys) = false
same_bytes (x ∷ xs) [] = false
same_bytes (x ∷ xs) (y ∷ ys) = (x == y) && same_bytes xs ys

-- `LoggerUnpackString`, with the number of characters in front in the order of the machine.
unfoldable pub logger_unpack_string : List ℕ → List ℕ
logger_unpack_string params =
    let size = of_bytes (take 4 params) in
    let rest = drop 4 params in if leb size (length rest) then take size rest else []

-- Descriptors of messages are of a type of another library.
pub record TypeInfo (Descriptor : Type 0) : Type 0 where
  pub nv_msg_desc : Option Descriptor
  pub id : ℕ
  pub params : List ℕ
  pub type_name : List ℕ
  pub ecu_id : DltidT
  pub app_id : DltidT

pub record IndexParser (Descriptor : Type 0) : Type 0 where
  pub info : TypeInfo Descriptor
  pub handlers_ : List ℕ

-- The handlers for a name, with the names in the order of the map, and those for all names.
pub record LogParser (Descriptor : Type 0) : Type 0 where
  pub handle_request_map : List (List ℕ × ℕ)
  pub global_handlers : List ℕ
  pub index_parser_map : ℕ → Option (IndexParser Descriptor)

-- A call of `Handle` of a handler of one type, or of one of all types.
pub data HandlerCall (Descriptor TimePoint : Type 0) : Type 0 where
  type_handler : ℕ → TimePoint → List ℕ → HandlerCall Descriptor TimePoint
  any_handler : ℕ → TypeInfo Descriptor → TimePoint → List ℕ → HandlerCall Descriptor TimePoint

-- `equal_range`
unfoldable pub equal_range : List ℕ → List (List ℕ × ℕ) → List ℕ
equal_range name [] = []
equal_range name ((key, handler) ∷ m) =
    let rest = equal_range name m in if same_bytes key name then handler ∷ rest else rest

-- The bytes in front of the name are those of a version 0.
unfoldable pub is_refused : List ℕ → Bool
is_refused params =
    leb (length params) 16
    || (not (get_or params 0 0 == 0)
        || (not (get_or params 1 0 == 0)
            || (not (get_or params 2 0 == 0) || not (get_or params 3 0 == 0))))

module _ {Descriptor : Type 0} where
  unfoldable pub new_log_parser : List (List ℕ × ℕ) → List ℕ → LogParser Descriptor
  new_log_parser handle_request_map global_handlers = record {
    handle_request_map = handle_request_map;
    global_handlers = global_handlers;
    index_parser_map = λ index. none;
  }

  module _ (get_dlt_msg_desc : List ℕ → Option Descriptor) where
    unfoldable pub index_parser_of : ℕ → List ℕ → LogParser Descriptor → IndexParser Descriptor
    index_parser_of map_index params parser =
        let type_name = logger_unpack_string (drop 12 params) in
        record {
          info = record {
            nv_msg_desc = get_dlt_msg_desc type_name;
            id = map_index;
            params = params;
            type_name = type_name;
            ecu_id = dltid (take 4 (drop 4 params));
            app_id = dltid (take 4 (drop 8 params));
          };
          handlers_ = equal_range type_name parser.handle_request_map;
        }

    -- `emplace` keeps what is there.
    unfoldable pub add_incoming_type : ℕ → List ℕ → LogParser Descriptor → LogParser Descriptor
    add_incoming_type map_index params parser =
        if is_refused params then parser else elim (parser.index_parser_map map_index) [
          | some old ↦ parser
          | none ↦ record parser {
            index_parser_map =
                set_at map_index (some (index_parser_of map_index params parser))
                  parser.index_parser_map;
          }
        ]

  module _ {TimePoint : Type 0} where
    unfoldable pub index_parse :
        List ℕ → TimePoint → List ℕ → List (HandlerCall Descriptor TimePoint)
    index_parse handlers timestamp bytes = map (λ h. type_handler h timestamp bytes) handlers

    unfoldable pub call_global :
        List ℕ → TypeInfo Descriptor → TimePoint → List ℕ → List (HandlerCall Descriptor TimePoint)
    call_global handlers info timestamp bytes =
        map (λ h. any_handler h info timestamp bytes) handlers

    -- What the two functions that parse have in common.
    unfoldable pub parse_with :
        Option (IndexParser Descriptor)
        → List ℕ
        → TimePoint
        → List ℕ
        → List (HandlerCall Descriptor TimePoint)
    parse_with none global_handlers timestamp bytes = []
    parse_with (some p) global_handlers timestamp bytes =
        index_parse p.handlers_ timestamp bytes
        ++ call_global global_handlers p.info timestamp bytes

    -- `Parse`, with the index in front of the bytes.
    unfoldable pub parse_indexed :
        LogParser Descriptor → TimePoint → List ℕ → List (HandlerCall Descriptor TimePoint)
    parse_indexed parser timestamp bytes =
        if ltb (length bytes) 4
        then []
        else parse_with (parser.index_parser_map (of_bytes (take 4 bytes))) parser.global_handlers
            timestamp (drop 4 bytes)

    unfoldable pub parse_shared_memory_record :
        LogParser Descriptor
        → BufferEntryHeader TimePoint
        → List ℕ
        → List (HandlerCall Descriptor TimePoint)
    parse_shared_memory_record parser header bytes =
        if ltb (u32_mod - 1) (length bytes)
        then []
        else parse_with (parser.index_parser_map header.type_identifier) parser.global_handlers
            header.time_stamp bytes
