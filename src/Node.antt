-- ===== src/Node.antt =====
-- What the indexer takes from idena-go: transactions as the fields that the code reads, and, as the
-- record `Node`, the library calls on them. Addresses and hashes are byte arrays that are only
-- compared, so they are numbers here.
use Prim.Native.String.{String}
use idena_indexer.Base.{ℕ, Option, List}

abbrev pub Address : Type 0
Address = ℕ

abbrev pub Hash : Type 0
Hash = ℕ

-- The zero value of `common.Address`.
abbrev pub zero_address : Address
zero_address = 0

-- `types.Transaction`. A nil `big.Int` is `none`.
pub record Transaction : Type 0 where
  pub tx_type : ℕ
  pub to : Option Address
  pub epoch : ℕ
  pub payload : List ℕ
  pub amount : Option ℕ
  pub tips : Option ℕ
  pub max_fee : Option ℕ
  pub account_nonce : ℕ

-- `sender` is the first result of `types.Sender`, the zero address where it fails.
pub record Node : Type 1 where
  pub Decimal : Type 0
  pub tx_hash : Transaction → Hash
  pub sender : Transaction → Address
  pub tx_size : Transaction → ℕ
  pub address_hex : Address → String
  pub hash_hex : Hash → String
  pub hex_to_address : String → Address
  pub hex_to_hash : String → Hash
  pub tx_type_name : ℕ → String
  pub to_float : Option ℕ → Decimal
