-- ===== src/FileTransfer/Contents.antt =====
-- filetransfer_stream.cpp: how a file is cut into packages, and that a receiver gets it back whole.
-- The file does not change while it is sent, and the exit of the thread is not requested.
use logging.Prelude.{
  ℕ, zero, suc, ◌+◌, ◌*◌, ◌/◌, ◌%◌, ◌≤◌, ◌<◌, ◌≡◌, refl, sym, ap, ◌∙◌, Bool, true, false, none,
  some, List, [], ◌∷◌, ◌++◌, arith, ltb, ◌==◌, if◌then◌else◌, length, take, drop, length-take,
  take-append, take_all, drop-drop, u32_mod,
}
use logging.Queue.Bytes.{to_bytes, of_bytes}
use logging.FileTransfer.Packages.{file_buffer_size, package_file_data, Package, flda}
use logging.FileTransfer.Arguments.Argument.{flag}
use logging.FileTransfer.Arguments.{encode, encode_all}
use logging.FileTransfer.Copies.{zeros}
use logging.FileTransfer.PackageArguments.{data_arguments}
use logging.FileTransfer.Encoding.{package_file_data-encoded}

unfoldable pub get_packages_count : ℕ → ℕ
get_packages_count fsize =
    if ltb fsize file_buffer_size
    then 1
    else if fsize % file_buffer_size == 0
    then fsize / file_buffer_size
    else fsize / file_buffer_size + 1

abbrev pub datapkgsize : ℕ
datapkgsize = (2 + 5 + 4) + (4 + 4) + (4 + 4) + (4 + 2 + file_buffer_size) + (2 + 5 + 4)

abbrev add_package : Package → List (List ℕ) × Bool → List (List ℕ) × Bool
add_package none rest = ([], false)
add_package (some (bytes, nor)) (sent, ok) = (bytes ∷ sent, ok)

-- The packages from `pkgno` on, of which there are `remaining`; false when one is not built, after
-- which the loop stops.
unfoldable pub log_file_data : List ℕ → ℕ → ℕ → ℕ → List (List ℕ) × Bool
log_file_data contents serialno zero pkgno = ([], true)
log_file_data contents serialno (suc remaining) pkgno =
    let rest = log_file_data contents serialno remaining (pkgno + 1) in
    add_package (package_file_data (zeros datapkgsize) contents serialno pkgno) rest

-- A receiver takes the raw data out of a package by the length in front of it.
unfoldable pub raw_data : List ℕ → List ℕ
raw_data bytes = take (of_bytes (take 2 (drop 31 bytes))) (drop 33 bytes)

unfoldable pub received : List (List ℕ) → List ℕ
unfolding raw_data
received [] = []
received (p ∷ ps) = raw_data p ++ received ps

raw_data-encode_all :
    (serialno pkgno : ℕ) (bytes : List ℕ)
    → length bytes ≤ file_buffer_size
    → raw_data (encode_all (data_arguments serialno pkgno bytes)) ≡ bytes
unfolding raw_data encode encode_all to_bytes of_bytes
raw_data-encode_all serialno pkgno bytes h =
    ap (λ n. take n (bytes ++ (encode_all (flag flda ∷ [])))) (omega arith)
    ∙ take-append bytes _ refl

take_none : (b : ℕ) → take {A = ℕ} b [] ≡ []
take_none zero = refl
take_none (suc b) = refl

take-take-drop : (a b : ℕ) (xs : List ℕ) → take a xs ++ take b (drop a xs) ≡ take (a + b) xs
take-take-drop zero b xs = ap (λ n. take n xs) (omega arith)
take-take-drop (suc a) b [] = take_none b ∙ ap (λ n. take n []) {x = suc (a + b)} (omega arith)
take-take-drop (suc a) b (x ∷ xs) =
    ap (◌∷◌ x) (take-take-drop a b xs) ∙ ap (λ n. take n (x ∷ xs)) {x = suc (a + b)} (omega arith)

package_built :
    (contents : List ℕ) (serialno p : ℕ)
    → p * file_buffer_size < u32_mod
    → package_file_data (zeros datapkgsize) contents serialno (suc p)
      ≡ some (
        encode_all (
            data_arguments serialno
              (suc p)
              (take file_buffer_size (drop (p * file_buffer_size) contents))),
        5,
      )
package_built contents serialno p h = package_file_data-encoded datapkgsize serialno p contents h

-- The offset of a package from its number on stays below 2^32.
log_file_data-received :
    (contents : List ℕ) (serialno remaining p : ℕ)
    → (p + remaining) * file_buffer_size < u32_mod + file_buffer_size
    → (received (log_file_data contents serialno remaining (suc p)).0
        ≡ take (remaining * file_buffer_size) (drop (p * file_buffer_size) contents))
      × ((log_file_data contents serialno remaining (suc p)).1 ≡ true)
unfolding log_file_data received
log_file_data-received contents serialno zero p h = (refl, refl)
log_file_data-received contents serialno (suc remaining) p h =
    let (data_, ok) = log_file_data-received contents serialno remaining (suc p) (omega arith) in
    rw (package_built contents serialno p (omega arith))
      (next_data data_, ap (λ q. (log_file_data contents serialno remaining q).1) next_number ∙ ok)
  where
    chunk : List ℕ
    chunk = take file_buffer_size (drop (p * file_buffer_size) contents)

    next_number : suc p + 1 ≡ suc (suc p)
    next_number = omega arith

    rest_eq :
        take (remaining * file_buffer_size) (drop (suc p * file_buffer_size) contents)
        ≡ take
            (remaining * file_buffer_size)
            (drop file_buffer_size (drop (p * file_buffer_size) contents))
    rest_eq = ap (take (remaining * file_buffer_size)) (
        ap (λ n. drop n contents) (omega arith)
        ∙ sym (drop-drop (p * file_buffer_size) file_buffer_size contents))

    next_data :
        received (log_file_data contents serialno remaining (suc (suc p))).0
          ≡ take (remaining * file_buffer_size) (drop (suc p * file_buffer_size) contents)
        → raw_data (encode_all (data_arguments serialno (suc p) chunk))
            ++ received (log_file_data contents serialno remaining (suc p + 1)).0
          ≡ take (suc remaining * file_buffer_size) (drop (p * file_buffer_size) contents)
    next_data d =
        ap (λ r. r ++ received (log_file_data contents serialno remaining (suc p + 1)).0)
          (raw_data-encode_all serialno (suc p) chunk
            (omega (arith, length-take file_buffer_size (drop (p * file_buffer_size) contents))))
        ∙ (ap (λ q. chunk ++ received (log_file_data contents serialno remaining q).0) next_number
            ∙ (ap (λ r. chunk ++ r) (d ∙ rest_eq)
                ∙ (take-take-drop file_buffer_size (remaining * file_buffer_size)
                      (drop (p * file_buffer_size) contents)
                    ∙ ap (λ n. take n (drop (p * file_buffer_size) contents)) (omega arith))))

packages_cover : (fsize : ℕ) → fsize ≤ get_packages_count fsize * file_buffer_size
unfolding get_packages_count
packages_cover fsize = ground arith

packages_bound :
    (fsize : ℕ)
    → fsize < u32_mod
    → get_packages_count fsize * file_buffer_size < u32_mod + file_buffer_size
unfolding get_packages_count
packages_bound fsize h = ground arith

-- Every data package of a file of less than 4 GiB is built, and the raw data that a receiver takes
-- out of them, one after the other, is the file.
pub log_file_data-whole :
    (contents : List ℕ) (serialno : ℕ)
    → length contents < u32_mod
    → let sent = log_file_data contents serialno (get_packages_count (length contents)) 1 in
      (received sent.0 ≡ contents) × (sent.1 ≡ true)
log_file_data-whole contents serialno h =
    let count = get_packages_count (length contents) in
    let (data_, ok) =
      log_file_data-received contents serialno count 0
        (omega (arith, packages_bound (length contents) h)) in
    (data_ ∙ take_all (count * file_buffer_size) contents (packages_cover (length contents)), ok)
