-- ===== src/FileTransfer/Tests.antt =====
-- The theorems at a file of 1500 bytes with the name `a.txt`.
use logging.Prelude.{ℕ, ◌≡◌, true, List, [], ◌∷◌, arith, length, replicate, length-replicate}
use logging.FileTransfer.Packages.{package_file_header, package_file_information, package_file_end}
use logging.FileTransfer.Copies.{zeros}
use logging.FileTransfer.PackageArguments.{
  encoded, header_arguments, information_arguments, end_arguments,
}
use logging.FileTransfer.Encoding.{packages-encoded}
use logging.FileTransfer.Contents.{log_file_data, received, get_packages_count, log_file_data-whole}

abbrev name : List ℕ
name = 97 ∷ 46 ∷ 116 ∷ 120 ∷ 116 ∷ []

abbrev date : List ℕ
date = 77 ∷ 111 ∷ 110 ∷ []

abbrev file : List ℕ
file = replicate 1500 7

packages-encoded_example :
    (package_file_header (zeros 1024) 9 name 1500 date 2
      ≡ encoded 1024 (header_arguments 9 name 1500 date 2))
    × (package_file_information (zeros 1024) 9 name 1500 date 2
        ≡ encoded 1024 (information_arguments 9 name 1500 date 2))
    × (package_file_end (zeros 1024) 9 ≡ encoded 1024 (end_arguments 9))
packages-encoded_example = packages-encoded 1024 9 1500 2 name date

log_file_data-whole_example :
    let sent = log_file_data file 9 (get_packages_count (length file)) 1 in
    (received sent.0 ≡ file) × (sent.1 ≡ true)
log_file_data-whole_example =
    log_file_data-whole file 9 (omega (arith, length-replicate {A = ℕ} 1500 7))
