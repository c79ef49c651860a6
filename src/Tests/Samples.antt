-- ===== src/Tests/Samples.antt =====
-- The data of the examples: one account, a withdrawal from it, and the worlds it leads to.
use innoscripta_banking_ledg.Base.{pos, false, [], ◌∷◌}
use innoscripta_banking_ledg.Domain.Shared.{TransactionRequest, withdrawal}
use innoscripta_banking_ledg.Domain.Account.{Account}
use innoscripta_banking_ledg.Domain.Ledger.{Entry}
use innoscripta_banking_ledg.Domain.Outbox.{Message, message_of}
use innoscripta_banking_ledg.Platform.World.{World}
use innoscripta_banking_ledg.Processor.OutboxManager.{ledger_entry_for_outbox}
use innoscripta_banking_ledg.Processor.Publisher.{completed_entry}
use innoscripta_banking_ledg.Processor.Poller.{Poller}
use innoscripta_banking_ledg.Tests.InMemory.{Store, Documents}

abbrev pub alice : Account
alice = record {
  id = 7;
  owner_name = "Alice";
  national_id = "A-1";
  balance = pos 100;
  currency = "EUR";
  version = pos 1;
  created_at = 10;
  updated_at = 10;
}

abbrev pub withdrawal_of_30 : TransactionRequest
withdrawal_of_30 = record {
  transaction_id = 55;
  account_id = 7;
  type = withdrawal;
  amount = pos 30;
  currency = "EUR";
  idempotency_key = "k";
  correlation_id = "c";
  timestamp = 11;
}

abbrev pub queued_entry : Entry
queued_entry = ledger_entry_for_outbox withdrawal_of_30

abbrev pub queued_message : Message Entry
queued_message = record (message_of queued_entry 12 queued_entry) { id = 1 }

abbrev pub fresh_store : Store
fresh_store = record { rows = alice ∷ []; queue = []; next = 1; down = false }

abbrev pub queued_store : Store
queued_store = record { rows = alice ∷ []; queue = queued_message ∷ []; next = 2; down = false }

abbrev pub empty_documents : Documents
empty_documents = record { docs = []; down = false }

abbrev pub full_documents : Documents
full_documents = record { docs = completed_entry 13 queued_entry ∷ []; down = false }

abbrev pub world : World Store Documents
world = record { pg = fresh_store; mongo = empty_documents }

-- The withdrawal is in the outbox.
abbrev pub queued_world : World Store Documents
queued_world = record { pg = queued_store; mongo = empty_documents }

abbrev pub poller : Poller
poller = record { batch_size = pos 10; max_retry_attempts = pos 3 }
