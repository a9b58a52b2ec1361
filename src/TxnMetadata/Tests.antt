-- ===== src/TxnMetadata/Tests.antt =====
-- Metadata of concrete payments, with the ASCII codec.
use client_sdk_python.Base.{ℕ, some, List, [], ◌∷◌, replicate, arith}
use client_sdk_python.Bcs.Ascii.{ascii, ascii-laws}
use client_sdk_python.Bcs.Types.{object, bytestring, null, nil, cons}
use client_sdk_python.TxnMetadata.{general_metadata}
use client_sdk_python.TxnMetadata.RoundTrip.{decode_structure-general_metadata}
use client_sdk_python.TxnMetadata.Fields.{Carries}

abbrev subaddress : List ℕ
subaddress = 1 ∷ 2 ∷ 3 ∷ 4 ∷ 5 ∷ 6 ∷ 7 ∷ 255 ∷ []

abbrev sixteen : List ℕ
sixteen = replicate 16 171

decode_structure-general_metadata_example :
    Carries ascii (general_metadata ascii (some subaddress) (some (9 ∷ [])) (some 0)) (
      object "GeneralMetadataV0"
        (cons (bytestring (9 ∷ [])) (cons (bytestring subaddress) (cons null nil))))
decode_structure-general_metadata_example =
    decode_structure-general_metadata ascii (some subaddress) (some (9 ∷ [])) (some 0) ascii-laws
      (ground arith) (ground arith) (omega arith)
