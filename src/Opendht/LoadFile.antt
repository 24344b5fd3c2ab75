-- ===== src/Opendht/LoadFile.antt =====
-- cpp/opendht/https_2waystls.cpp: `loadFile`. The file system is a parameter: opening a file, and of
-- an open one the position at its end and a read from its begin.
use smoll.Base.{
  ℕ, ◌≡◌, refl, ap, ◌∷◌, List, [], Option, none, some, Bytes, arith, ltb, leb, length, take,
  if◌then◌else◌,
}

-- `tellg` at the end: none is the position -1.
pub record File : Type 0 where
  pub size : Option ℕ
  pub read : ℕ → Option Bytes

abbrev pub Disk : Type 0
Disk = Bytes → Option File

-- The exceptions. The last is thrown by `resize`, which is given the position -1 as a huge size.
pub data Refusal : Type 0 where
  cannot_read too_big cannot_load : Bytes → Refusal
  length_error : Refusal

pub data Loaded : Type 0 where
  loaded : Bytes → Loaded
  refused : Refusal → Loaded

abbrev pub unsigned_max : ℕ
unsigned_max = 4294967295

-- From `resize` on.
abbrev read_file : Bytes → File → ℕ → Loaded
read_file path file size = elim (file.read size) [
  | none ↦ refused (cannot_load path)
  | some buffer ↦ loaded buffer
]

abbrev sized_file : Bytes → File → Loaded
sized_file path file = elim (file.size) [
  | none ↦ refused length_error
  | some size ↦ if ltb unsigned_max size then refused (too_big path) else read_file path file size
]

unfoldable pub load_file : Disk → Bytes → Loaded
load_file disk path = elim (disk path) [
  | none ↦ refused (cannot_read path)
  | some file ↦ sized_file path file
]

-- A regular file, of which the content is read from the begin, and no more than there is.
abbrev pub regular : Bytes → File
regular content = record {
  size = some (length content);
  read = λ n. if leb n (length content) then some (take n content) else none;
}

take-length : {A : Type 0} (xs : List A) → take (length xs) xs ≡ xs
take-length [] = refl
take-length (x ∷ xs) = ap (λ l. x ∷ l) (take-length xs)

-- Of a regular file `loadFile` returns the whole content, where its length fits an unsigned; a longer
-- file is refused by the exception that names it.
pub load_file-regular :
    (disk : Disk) (path content : Bytes)
    → disk path ≡ some (regular content)
    → load_file disk path
      ≡ (if leb (length content) unsigned_max then loaded content else refused (too_big path))
unfolding load_file
load_file-regular disk path content e = rw (e, load_file) (ground (arith, take-length content))
