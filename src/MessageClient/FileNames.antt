-- ===== src/MessageClient/FileNames.antt =====
-- The name of the shared memory file, which WriterFactory (shared_memory/writer_factory.cpp) chooses in the
-- logging process and the router finds again from the connect message (socketserver.cpp).
use logging.Prelude.{
  ℕ, zero, suc, ◌+◌, ◌/◌, ◌%◌, ◌≡◌, refl, sym, Bool, true, false, ◌&&◌, List, [], ◌∷◌, ◌++◌,
  append_assoc, arith, ltb, if◌then◌else◌, length, take, drop, replicate, length-append,
  take-append,
}

abbrev tmp_logging : List ℕ
tmp_logging = 47 ∷ 116 ∷ 109 ∷ 112 ∷ 47 ∷ 108 ∷ 111 ∷ 103 ∷ 103 ∷ 105 ∷ 110 ∷ 103 ∷ []

abbrev k_suffix_name : List ℕ
k_suffix_name = 46 ∷ 115 ∷ 104 ∷ 109 ∷ 101 ∷ 109 ∷ []

-- The decimal digits of a number of at most that many digits.
abbrev decimal : ℕ → ℕ → List ℕ
decimal zero n = []
decimal (suc digits) n =
    let front = decimal digits (n / 10) in
    if ltb n 10 then (48 + n) ∷ [] else front ++ (48 + n % 10) ∷ []

-- `std::to_string` of a `uid_t`.
unfoldable pub uid_to_string : ℕ → List ℕ
uid_to_string uid = decimal 10 uid

unfoldable pub get_static_logging_client_filename : List ℕ → ℕ → List ℕ
get_static_logging_client_filename app_id uid =
    tmp_logging ++ 46 ∷ (app_id ++ 46 ∷ (uid_to_string uid ++ k_suffix_name))

-- `PrepareFileNameAndUpdateOpenFlags`, with what `mkstemps` puts for the six placeholders.
unfoldable pub prepare_file_name : Bool → List ℕ → List ℕ → ℕ → List ℕ
unfolding get_static_logging_client_filename
prepare_file_name dynamic_mode random app_id uid =
    if dynamic_mode
    then tmp_logging ++ 45 ∷ (random ++ k_suffix_name)
    else get_static_logging_client_filename app_id uid

-- The application identifier is a type of another library, and here its characters.
pub record ConnectMessageFromClient : Type 0 where
  pub app_id : List ℕ
  pub uid : ℕ
  pub use_dynamic_identifier : Bool
  pub random_part : List ℕ

abbrev k_random_filename_start_index : ℕ
k_random_filename_start_index = 13

-- The message of `SendConnectMessage`.
unfoldable pub connect_message : List ℕ → ℕ → Bool → List ℕ → ConnectMessageFromClient
connect_message app_id uid use_dynamic_datarouter_ids writer_file_name = record {
  app_id = app_id;
  uid = uid;
  use_dynamic_identifier = use_dynamic_datarouter_ids;
  random_part =
      if use_dynamic_datarouter_ids
        && ltb (k_random_filename_start_index + 6 + 1) (length writer_file_name)
      then take 6 (drop k_random_filename_start_index writer_file_name)
      else replicate 6 0;
}

unfoldable pub resolve_shared_memory_file_name : ConnectMessageFromClient → List ℕ
resolve_shared_memory_file_name conn =
    (if conn.use_dynamic_identifier
      then tmp_logging ++ 45 ∷ conn.random_part
      else tmp_logging ++ 46 ∷ (conn.app_id ++ 46 ∷ uid_to_string conn.uid))
    ++ k_suffix_name

-- The router opens the file that the logging process made, with a static name and with a dynamic one of
-- six random characters, as long as the identifier in the message keeps the configured name of the
-- application.
pub resolve-prepared :
    (identifier : List ℕ → List ℕ) (dynamic_mode : Bool) (random app_id : List ℕ) (uid : ℕ)
    → length random ≡ 6
    → identifier app_id ≡ app_id
    → let file_name = prepare_file_name dynamic_mode random app_id uid in
      resolve_shared_memory_file_name
        (connect_message (identifier app_id) uid dynamic_mode file_name)
      ≡ file_name
unfolding resolve_shared_memory_file_name connect_message prepare_file_name
    get_static_logging_client_filename
resolve-prepared identifier false random app_id uid six kept =
    rw (kept, append_assoc app_id (46 ∷ uid_to_string uid) k_suffix_name) refl
resolve-prepared identifier true random app_id uid six kept =
    rw (long, take-append random k_suffix_name {n = 6} (sym six)) refl
  where
    long : ltb 20 (length (tmp_logging ++ 45 ∷ (random ++ k_suffix_name))) ≡ true
    long = ground (arith, length-append random k_suffix_name)
