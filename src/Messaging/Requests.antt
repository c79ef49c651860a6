-- ===== src/Messaging/Requests.antt =====
-- internal/platform/messaging/producers/transaction_request.go: the producer of the gateway.
use innoscripta_banking_ledg.Base.{ℕ, String, true, Option, none, some, [], str_eq, if◌then◌else◌}
use innoscripta_banking_ledg.Domain.Shared.{TransactionRequest}
use innoscripta_banking_ledg.Domain.Error.{external, wrapped}
use innoscripta_banking_ledg.Domain.Result.{Result, ok, err, Exec}
use innoscripta_banking_ledg.Config.Kafka.{KafkaConfig}
use innoscripta_banking_ledg.Platform.Reply.{Reply, done, fault}
use innoscripta_banking_ledg.Messaging.{WireMessage, WriterSettings, require_one, KafkaWriter}
use innoscripta_banking_ledg.Messaging.Topics.{KafkaConn, KafkaDialer, ensure_topic}

-- `TransactionReqMessageProducer`
pub record TransactionReqMessageProducer : Type 0 where
  pub writer : WriterSettings
  pub topic : String

abbrev pub request_producer : KafkaConfig → Result (Unit {0}) → Result TransactionReqMessageProducer
request_producer config (err e) = err e
request_producer config (ok _) = ok (record {
  writer = record {
    topic = config.transaction_topic;
    required_acks = require_one;
    async = true;
    write_timeout = config.max_wait;
  };
  topic = config.transaction_topic;
})

-- `NewTransactionReqMessageProducer`
unfoldable pub new_transaction_req_message_producer :
    {K : Type 0} → KafkaDialer K → KafkaConn K → KafkaConfig → Exec K TransactionReqMessageProducer
new_transaction_req_message_producer dialer conn config k =
    let (r, k') = ensure_topic dialer conn config config.transaction_topic k in
    if str_eq config.transaction_topic ""
    then (err external, k)
    else (request_producer config r, k')

-- The bytes of a key and of a request, and what can be read back from them.
pub record RequestJson (V : Type 0) : Type 0 where
  pub key_bytes : ℕ → V
  pub marshal : TransactionRequest → Option V
  pub unmarshal : V → Option TransactionRequest

abbrev pub written : Reply (Unit {0}) → Result (Unit {0})
written (done _) = ok tt
written fault = err (wrapped external)

module _ {V W : Type 0} (json : RequestJson V) (writer : KafkaWriter V W) where
  abbrev pub request_message : ℕ → V → WireMessage V
  request_message key value = record { key = json.key_bytes key; value = value; headers = [] }

  write_request : ℕ → Option V → Exec W (Unit {0})
  write_request key none w = (err (wrapped external), w)
  write_request key (some value) w =
      let (r, w') = writer.write_messages (request_message key value) w in (written r, w')

  unfoldable pub publish : ℕ → TransactionRequest → Exec W (Unit {0})
  unfolding write_request
  publish key request w = write_request key (json.marshal request) w

  unfoldable pub close : Exec W (Unit {0})
  close w = let (r, w') = writer.close w in (written r, w')
