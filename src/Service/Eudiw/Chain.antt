-- ===== src/Service/Eudiw/Chain.antt =====
-- `LoadX5CChain`: the certificates of a PEM file. os.ReadFile and pem.Decode are parameters.
use go_r2ps_service.Base.{
  ℕ, zero, suc, String, Option, none, some, List, [], ◌∷◌, length, ◌==◌, string_eq, if◌then◌else◌,
}
use go_r2ps_service.Base.Exec.{Result, ok, err}
use go_r2ps_service.Protocol.{Bytes}

pub record PemBlock : Type 0 where
  pub kind : String
  pub bytes : Bytes

module _ (pem_decode : Bytes → Option (PemBlock × Bytes)) where
  -- The loop stops when no block is left. Each block takes bytes off the rest, so the fuel of
  -- `load_x5c_chain` is enough.
  abbrev blocks : ℕ → Bytes → List PemBlock
  blocks zero text = []
  blocks (suc fuel) text = elim (pem_decode text) [
    | none ↦ []
    | some (block, rest) ↦ block ∷ blocks fuel rest
  ]

  certificates : List PemBlock → List Bytes
  certificates [] = []
  certificates (block ∷ blocks) =
      let rest = certificates blocks in
      if block.kind == "CERTIFICATE" then block.bytes ∷ rest else rest

  abbrev some_chain : List Bytes → Result String (List Bytes)
  some_chain [] = err "no certificates found in PEM file"
  some_chain (c ∷ cs) = ok (c ∷ cs)

  abbrev chain_of_file : Option Bytes → Result String (List Bytes)
  chain_of_file none = err "read x5c file"
  chain_of_file (some text) = some_chain (certificates (blocks (length text) text))

  -- `none` is the nil chain of an empty path.
  unfoldable pub load_x5c_chain : (String → Option Bytes) → String → Result String (List Bytes)
  unfolding certificates
  load_x5c_chain read_file path = if path == "" then ok [] else chain_of_file (read_file path)
