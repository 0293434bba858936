-- ===== src/Examples/Data.antt =====
-- The inputs of the examples: a user, her password, and the sources of random numbers.
use mltk.Common.{ℕ, List, [], ◌∷◌, some, codes, true, arith, All, IsTextByte, IsByte}
use mltk.PwDaemon.Keys.{Device, chunk, interrupted, Vars, setup_vars}
use mltk.PwDaemon.Keys.Setup.{IsSetUp, setup_vars-IsSetUp}

abbrev pub alice : List ℕ
alice = codes "alice"

abbrev pub secret : List ℕ
secret = codes "s\\ \"t"

abbrev pub sixteen : List ℕ
sixteen = 1 ∷ 2 ∷ 3 ∷ 4 ∷ 5 ∷ 6 ∷ 7 ∷ 8 ∷ 9 ∷ 10 ∷ 11 ∷ 12 ∷ 13 ∷ 14 ∷ 15 ∷ 255 ∷ []

-- A device that is interrupted and then gives 16 bytes.
abbrev pub urandom : Device
urandom = record { opens = true; entropy = some 256; reads = interrupted ∷ chunk sixteen ∷ [] }

-- A device with three bytes.
abbrev pub short_device : Device
short_device = record { opens = true; entropy = some 1; reads = chunk (7 ∷ 8 ∷ 9 ∷ []) ∷ [] }

abbrev pub rand : ℕ → ℕ
rand k = k

abbrev pub vars : Vars
vars = (setup_vars urandom short_device rand alice secret).0

pub vars-IsSetUp : IsSetUp alice secret vars
vars-IsSetUp =
    setup_vars-IsSetUp urandom short_device rand alice secret (ground arith) (ground arith)

pub secret_text : All IsTextByte secret
secret_text = ground arith

pub sixteen_bytes : All IsByte sixteen
sixteen_bytes = ground arith
