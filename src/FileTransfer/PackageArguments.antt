-- ===== src/FileTransfer/PackageArguments.antt =====
-- The arguments of each package, and what writing them into a buffer of zeros gives.
use logging.Prelude.{
  ℕ, ◌≤◌, ◌≡◌, refl, ap, ◌∙◌, none, some, List, [], ◌∷◌, arith, dec_lt, ltb, ◌==◌, if◌then◌else◌,
  length, take, length-replicate, take-append,
}
use logging.FileTransfer.Packages.{
  file_buffer_size, flst, flda, fler, flfi, flif, Package, Writer, finish, start,
}
use logging.FileTransfer.Arguments.{
  uint16, linux_code, raw, text, encode_all, uint32, code, copy_all, size_of_all, Fits, flag,
  AreRegular, Argument,
}
use logging.FileTransfer.Copies.{copy_all-Holds, zeros, Holds}

abbrev pub header_arguments : ℕ → List ℕ → ℕ → List ℕ → ℕ → List Argument
header_arguments serialno alias fsize creationdate packagecount =
    flag flst
    ∷ uint32 serialno
    ∷ text alias
    ∷ uint32 fsize
    ∷ text creationdate
    ∷ uint32 packagecount
    ∷ uint16 file_buffer_size
    ∷ flag flst
    ∷ []

abbrev pub information_arguments : ℕ → List ℕ → ℕ → List ℕ → ℕ → List Argument
information_arguments serialno alias fsize creationdate packagecount =
    flag flif
    ∷ uint32 serialno
    ∷ text alias
    ∷ uint32 fsize
    ∷ text creationdate
    ∷ uint32 packagecount
    ∷ flag flif
    ∷ []

abbrev pub end_arguments : ℕ → List Argument
end_arguments serialno = flag flfi ∷ uint32 serialno ∷ flag flfi ∷ []

abbrev pub data_arguments : ℕ → ℕ → List ℕ → List Argument
data_arguments serialno pkgno bytes =
    flag flda ∷ uint32 serialno ∷ uint32 pkgno ∷ raw bytes ∷ flag flda ∷ []

abbrev pub no_file_arguments : ℕ → ℕ → List ℕ → List Argument
no_file_arguments errno errorcode alias =
    flag fler ∷ code errorcode ∷ linux_code errno ∷ text alias ∷ flag fler ∷ []

abbrev pub file_error_arguments :
    ℕ → ℕ → ℕ → List ℕ → ℕ → List ℕ → ℕ → List Argument → List Argument
file_error_arguments errno errorcode serialno alias fsize creationdate packagecount last =
    flag fler
    ∷ code errorcode
    ∷ linux_code errno
    ∷ uint32 serialno
    ∷ text alias
    ∷ uint32 fsize
    ∷ text creationdate
    ∷ uint32 packagecount
    ∷ last

-- The linux error code of a file that does not exist is 2.
unfoldable pub error_arguments : ℕ → ℕ → ℕ → List ℕ → ℕ → List ℕ → ℕ → List ℕ → List Argument
error_arguments errno errorcode serialno alias fsize creationdate packagecount error_msg =
    if errno == 2
    then no_file_arguments errno errorcode alias
    else if length error_msg == 0
    then file_error_arguments errno errorcode serialno alias fsize creationdate packagecount
        (flag fler ∷ [])
    else file_error_arguments errno errorcode serialno alias fsize creationdate packagecount
        (text error_msg ∷ flag fler ∷ [])

-- The package of the arguments, when they fit in `n` bytes.
unfoldable pub encoded : ℕ → List Argument → Package
encoded n args = if ltb n (size_of_all args) then none else some (encode_all args, length args)

pub finish-Holds :
    (nor : ℕ) {bytes : List ℕ} {k : ℕ} {w : Writer}
    → Holds bytes k w
    → finish nor w ≡ some (bytes, nor)
unfolding finish
finish-Holds nor {bytes} {k} {w} x =
    ap (λ (b : List ℕ). some (b, nor))
      (ap (take w.buffersize) x.content ∙ take-append bytes (zeros k) x.size)

pub start-Holds : (n : ℕ) → Holds [] n (start (zeros n))
unfolding start
start-Holds n = record { content = refl; size = refl }

-- What the copies of regular arguments make of a buffer of zeros.
pub finish-copy_all :
    (args : List Argument) (n : ℕ)
    → AreRegular args
    → Fits args n
    → finish (length args) (copy_all args (start (zeros n))) ≡ some (encode_all args, length args)
finish-copy_all args n r h = finish-Holds (length args) (copy_all-Holds args r h (start-Holds n))

pub guarded-encoded :
    (n limit : ℕ) (args : List Argument)
    → limit ≡ size_of_all args
    → AreRegular args
    → (size_of_all args ≤ n → Fits args n)
    → (if ltb (length (zeros n)) limit
        then none
        else finish (length args) (copy_all args (start (zeros n))))
      ≡ encoded n args
unfolding encoded
guarded-encoded n limit args e r fits =
    rw (length-replicate {A = ℕ} n 0, e)
      (elim (dec_lt n (size_of_all args)) [
        | yes small ↦ ground arith
        | no large ↦
            ap (λ p. if ltb n (size_of_all args) then none else p)
              (finish-copy_all args n r (fits (omega arith)))
      ])
