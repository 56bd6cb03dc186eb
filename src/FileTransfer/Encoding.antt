-- ===== src/FileTransfer/Encoding.antt =====
-- Each package, built in a buffer of zeros, is the encoding of its arguments, and the number that is
-- returned with it counts them.
use logging.Prelude.{
  ℕ, suc, ◌+◌, ◌-◌, ◌*◌, ◌%◌, ◌≤◌, ◌<◌, ◌≡◌, refl, ap, ◌∙◌, inl, inr, none, some, List, arith,
  dec_lt, ltb, ◌==◌, if◌then◌else◌, Bool-cases, length, take, drop, length-take, length-replicate,
  u32_mod, u16_mod,
}
use logging.FileTransfer.Packages.{
  copy, copy_flag, package_file_data, package_file_error, file_buffer_size, package_file_end,
  package_file_information, finish, package_file_header, start,
}
use logging.FileTransfer.Arguments.{
  count_raw, copy_raw, copy_argument, encode_all, copy_all, size_of_all, Fits, AreRegular,
}
use logging.FileTransfer.Copies.{zeros}
use logging.FileTransfer.PackageArguments.{
  header_arguments, information_arguments, end_arguments, data_arguments, error_arguments, encoded,
  finish-copy_all, guarded-encoded,
}

-- On a buffer of zeros the packages for the begin, the description and the end of a file are the
-- encodings of their arguments with the right count, and there is none exactly when the buffer is
-- too small for the encoding.
pub packages-encoded :
    (n serialno fsize packagecount : ℕ) (alias creationdate : List ℕ)
    → (package_file_header (zeros n) serialno alias fsize creationdate packagecount
        ≡ encoded n (header_arguments serialno alias fsize creationdate packagecount))
      × (package_file_information (zeros n) serialno alias fsize creationdate packagecount
          ≡ encoded n (information_arguments serialno alias fsize creationdate packagecount))
      × (package_file_end (zeros n) serialno ≡ encoded n (end_arguments serialno))
unfolding package_file_header package_file_information package_file_end encoded copy_flag copy_all
    copy copy_argument
packages-encoded n serialno fsize packagecount alias creationdate = (
  guarded-encoded n _ (header_arguments serialno alias fsize creationdate packagecount)
      (omega arith) (refl, (tt, (tt, (tt, (tt, (tt, (tt, (refl, tt))))))))
      (λ h. (
        omega arith,
        (
          omega arith,
          (
            omega arith,
            (omega arith, (omega arith, (omega arith, (omega arith, (omega arith, tt))))),
          ),
        ),
      )),
  guarded-encoded n _ (information_arguments serialno alias fsize creationdate packagecount)
      (omega arith) (refl, (tt, (tt, (tt, (tt, (tt, (refl, tt)))))))
      (λ h. (
        omega arith,
        (
          omega arith,
          (omega arith, (omega arith, (omega arith, (omega arith, (omega arith, tt))))),
        ),
      )),
  guarded-encoded n _ (end_arguments serialno) (omega arith) (refl, (tt, (refl, tt)))
      (λ h. (omega arith, (omega arith, (omega arith, tt)))),
)

data_finished :
    (n serialno pkgno offset : ℕ) (contents : List ℕ)
    → (pkgno + u32_mod - 1) % u32_mod * file_buffer_size % u32_mod ≡ offset
    → package_file_data (zeros n) contents serialno pkgno ≡ (
        if ltb (length (zeros n)) 1068
        then none
        else finish 5 (
            copy_all
              (data_arguments serialno pkgno (take file_buffer_size (drop offset contents)))
              (start (zeros n))))
unfolding package_file_data copy_all copy_argument copy_raw count_raw
data_finished n serialno pkgno offset contents e = rw e refl

-- The data package of a part of the file holds what stands at that part, up to 1024 bytes, as long
-- as its offset fits in 32 bits; there is none exactly when the buffer is smaller than the largest
-- package.
pub package_file_data-encoded :
    (n serialno p : ℕ) (contents : List ℕ)
    → p * file_buffer_size < u32_mod
    → package_file_data (zeros n) contents serialno (suc p) ≡ (
        if ltb n 1068
        then none
        else some (
          encode_all (
              data_arguments serialno
                (suc p)
                (take file_buffer_size (drop (p * file_buffer_size) contents))),
          5,
        ))
package_file_data-encoded n serialno p contents h =
    let chunk = take file_buffer_size (drop (p * file_buffer_size) contents) in
    let size = length-take file_buffer_size (drop (p * file_buffer_size) contents) in
    data_finished n serialno (suc p) (p * file_buffer_size) contents (omega arith)
    ∙ rw (length-replicate {A = ℕ} n 0) (elim (dec_lt n 1068) [
      | yes small ↦ ground arith
      | no large ↦
          ap (λ r. if ltb n 1068 then none else r)
            (finish-copy_all (data_arguments serialno (suc p) chunk) n
              (refl, (tt, (tt, (tt, (refl, tt)))))
              (omega arith, (omega arith, (omega arith, (omega arith, (omega arith, tt))))))
    ])

error_finished :
    (n errno errorcode serialno fsize packagecount : ℕ) (alias creationdate error_msg : List ℕ)
    → let args =
        error_arguments errno errorcode serialno alias fsize creationdate packagecount error_msg in
      package_file_error
        (zeros n)
        errno
        errorcode
        serialno
        alias
        fsize
        creationdate
        packagecount
        error_msg
      ≡ finish (length args) (copy_all args (start (zeros n)))
unfolding package_file_error error_arguments copy_all copy_argument
error_finished n errno errorcode serialno fsize packagecount alias creationdate error_msg =
    elim (Bool-cases (errno == 2)) [
      | inl e ↦ rw e refl
      | inr e ↦ elim (Bool-cases (length error_msg == 0)) [
        | inl f ↦ rw (e, f) refl
        | inr f ↦ rw (e, f) refl
      ]
    ]

error-Fits :
    (n errno errorcode serialno fsize packagecount : ℕ) (alias creationdate error_msg : List ℕ)
    → errno < u16_mod
    → let args =
        error_arguments errno errorcode serialno alias fsize creationdate packagecount error_msg in
      size_of_all args ≤ n → AreRegular args × Fits args n
unfolding error_arguments
error-Fits n errno errorcode serialno fsize packagecount alias creationdate error_msg e =
    elim (Bool-cases (errno == 2)) [
      | inl c ↦ rw c (λ h. (
        (refl, (tt, (e, (tt, (refl, tt))))),
        (omega arith, (omega arith, (omega arith, (omega arith, (omega arith, tt))))),
      ))
      | inr c ↦ elim (Bool-cases (length error_msg == 0)) [
        | inl d ↦
            rw (c, d)
              (λ h. (
                (refl, (tt, (e, (tt, (tt, (tt, (tt, (tt, (refl, tt))))))))),
                (
                  omega arith,
                  (
                    omega arith,
                    (
                      omega arith,
                      (
                        omega arith,
                        (
                          omega arith,
                          (omega arith, (omega arith, (omega arith, (omega arith, tt)))),
                        ),
                      ),
                    ),
                  ),
                ),
              ))
        | inr d ↦
            rw (c, d)
              (λ h. (
                (refl, (tt, (e, (tt, (tt, (tt, (tt, (tt, (tt, (refl, tt)))))))))),
                (
                  omega arith,
                  (
                    omega arith,
                    (
                      omega arith,
                      (
                        omega arith,
                        (
                          omega arith,
                          (
                            omega arith,
                            (omega arith, (omega arith, (omega arith, (omega arith, tt)))),
                          ),
                        ),
                      ),
                    ),
                  ),
                ),
              ))
      ]
    ]

-- An error is reported with the arguments that it has, when the buffer, which is not tested, is large
-- enough for them.
pub package_file_error-encoded :
    (n errno errorcode serialno fsize packagecount : ℕ) (alias creationdate error_msg : List ℕ)
    → errno < u16_mod
    → size_of_all
        (error_arguments errno errorcode serialno alias fsize creationdate packagecount error_msg)
      ≤ n
    → let args =
        error_arguments errno errorcode serialno alias fsize creationdate packagecount error_msg in
      package_file_error
        (zeros n)
        errno
        errorcode
        serialno
        alias
        fsize
        creationdate
        packagecount
        error_msg
      ≡ some (encode_all args, length args)
package_file_error-encoded n errno errorcode serialno fsize packagecount alias creationdate
      error_msg e h =
    let (regular, fits) =
      error-Fits n errno errorcode serialno fsize packagecount alias creationdate error_msg e h in
    error_finished n errno errorcode serialno fsize packagecount alias creationdate error_msg
    ∙ finish-copy_all _ n regular fits
