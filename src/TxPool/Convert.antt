-- ===== src/TxPool/Convert.antt =====
-- `toTransactionDetail`, `toTransactionSummary` and `toTransactionSummaries`.
use Prim.Native.String.{String}
use idena_indexer.Base.{ℕ, ◌%◌, ◌^◌, Option, none, some, List, map}
use idena_indexer.Node.{Transaction, Node}

module _ (n : Node) where
  open n use {Decimal, tx_hash, sender, tx_size, address_hex, hash_hex, tx_type_name, to_float}

  pub record TransactionDetail : Type 0 where
    pub epoch : ℕ
    pub hash : String
    pub tx_type : String
    pub from : String
    pub to : String
    pub amount : Decimal
    pub tips : Decimal
    pub max_fee : Decimal
    pub size : ℕ
    pub nonce : ℕ

  pub record TransactionSummary : Type 0 where
    pub hash : String
    pub tx_type : String
    pub from : String
    pub to : String
    pub amount : Decimal
    pub tips : Decimal
    pub max_fee : Decimal
    pub size : ℕ
    pub nonce : ℕ

  -- Both functions leave the recipient's text empty where there is no recipient.
  unfoldable pub recipient_text : Transaction → String
  recipient_text tx = elim tx.to [ none ↦ "" | some to ↦ address_hex to ]

  unfoldable pub to_transaction_detail : Transaction → TransactionDetail
  to_transaction_detail tx = record {
    epoch = tx.epoch;
    hash = hash_hex (tx_hash tx);
    tx_type = tx_type_name tx.tx_type;
    from = address_hex (sender tx);
    to = recipient_text tx;
    amount = to_float tx.amount;
    tips = to_float tx.tips;
    max_fee = to_float tx.max_fee;
    size = tx_size tx % 2 ^ 32;
    nonce = tx.account_nonce;
  }

  unfoldable pub to_transaction_summary : Transaction → TransactionSummary
  to_transaction_summary tx = record {
    hash = hash_hex (tx_hash tx);
    tx_type = tx_type_name tx.tx_type;
    from = address_hex (sender tx);
    to = recipient_text tx;
    amount = to_float tx.amount;
    tips = to_float tx.tips;
    max_fee = to_float tx.max_fee;
    size = tx_size tx % 2 ^ 32;
    nonce = tx.account_nonce;
  }

  -- `none` is the fault of reading through a nil pointer.
  unfoldable pub summary_of : Option Transaction → Option TransactionSummary
  summary_of none = none
  summary_of (some tx) = some (to_transaction_summary tx)

  unfoldable pub to_transaction_summaries :
      List (Option Transaction) → List (Option TransactionSummary)
  unfolding summary_of
  to_transaction_summaries txs = map summary_of txs
