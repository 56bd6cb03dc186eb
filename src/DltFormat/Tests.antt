-- ===== src/DltFormat/Tests.antt =====
-- The theorems at a payload of 100 bytes and the usual functions on bits.
use logging.Prelude.{
  ℕ, ◌+◌, ◌-◌, ◌*◌, ◌/◌, ◌%◌, ◌^◌, refl, not, List, [], ◌∷◌, ◌++◌, arith, if◌then◌else◌, ltb, ◌==◌,
  length, length-append,
}
use logging.DltFormat.Payload.{VerbosePayload, PayloadLaws}
use logging.DltFormat.Arguments.{BitFunctions, bit_or, log_string, log_integer, uint16}
use logging.DltFormat.Strings.{StringLogged, log_string-decode_string}
use logging.DltFormat.TypeInformation.{BitLaws}
use logging.DltFormat.Numbers.{NumberLogged, log_integer-NumberLogged}

abbrev bytes_payload : VerbosePayload (List ℕ)
bytes_payload = record {
  will_overflow = λ p size. ltb (100 - length p) size;
  put = λ p data_. p ++ data_;
  remaining_capacity = λ p. 100 - length p;
}

bytes_payload_laws : PayloadLaws bytes_payload
bytes_payload_laws = record {
  content = λ p. p;
  will_overflow_lem = λ p size. refl;
  content-put = λ p data_ h. refl;
  remaining_capacity-put = λ p data_ h. omega (arith, length-append p data_);
  remaining_capacity_bound = λ p. omega arith;
}

abbrev usual_bits : BitFunctions
usual_bits = record {
  set_bit = λ v n. if v / 2 ^ n % 2 == 0 then v + 2 ^ n else v;
  check_bit = λ v n. not (v / 2 ^ n % 2 == 0);
}

abbrev hello : List ℕ
hello = 104 ∷ 101 ∷ 108 ∷ 108 ∷ 111 ∷ []

log_string-decode_string_example :
    StringLogged bytes_payload_laws usual_bits [] hello
      (log_string usual_bits bytes_payload [] hello)
unfolding bit_or
log_string-decode_string_example =
    log_string-decode_string bytes_payload_laws usual_bits refl [] hello

usual_bits_laws : BitLaws usual_bits
unfolding bit_or
usual_bits_laws = record { set_bit_lem = λ n h. ground arith; check_bit_lem = λ v n h. refl }

log_integer-NumberLogged_example :
    NumberLogged bytes_payload_laws usual_bits []
      (66 + 32768 * 2)
      2
      4660
      (log_integer usual_bits bytes_payload uint16 [] 4660 2)
log_integer-NumberLogged_example =
    log_integer-NumberLogged bytes_payload_laws usual_bits usual_bits_laws uint16 [] 4660 2
      (omega arith) (omega arith)
