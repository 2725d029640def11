-- ===== src/Stage5/Journal/Tests.antt =====
-- Lives of the journal on concrete values.
use automated_trading_bot.Prelude.{
  String, true, false, Option, none, some, List, [], ◌∷◌, find, str_eq, ok, ◌≡◌, ◌≢◌, ◌⊎◌, refl, ap,
}
use automated_trading_bot.Stage5.Authority.{
  RecoveryReceipt, outcome_committed, verify_rsa_signature, validate_common, consume,
  consume_terminal,
}
use automated_trading_bot.Stage5.Authority.Once.{verifier_after}
use automated_trading_bot.Stage5.Authority.Tests.{toy, verifier, final_receipt}
use automated_trading_bot.Stage5.Journal.Records.{
  ambiguous_hold, recovered_denied, row_of, has_conflict, RecoveryRecord, AdmissionEvidence, Tables,
  RecoveryJournal,
}
use automated_trading_bot.Stage5.Journal.Connection.{
  Denial, completes, expired_late, unresolved_commit, returned, journal_after, connect, on_tables,
  update_where,
}
use automated_trading_bot.Stage5.Journal.Opening.{construct}
use automated_trading_bot.Stage5.Journal.Opening.{bootstrap_challenge, require_authority_binding}
use automated_trading_bot.Stage5.Journal.Resolution.{
  cleared, Evidence, verdict_on, resolution, consumption, resolve_authenticated_terminal,
}
use automated_trading_bot.Stage5.Journal.Recovery.{requalify_exposure}
use automated_trading_bot.Stage5.Journal.Reopening.{IsReopened, requalify-IsReopened}
use automated_trading_bot.Stage5.Journal.Cleared.{IsRecoverable}
use automated_trading_bot.Stage5.Authority.Later.{spend}
use automated_trading_bot.Stage5.Journal.Evidence.{
  IsEvidence, consumption-IsEvidence, IsContested, resolve-contrary,
}
use automated_trading_bot.Stage5.Journal.Commands.{
  Command, prepare, hold_it, fail, mark, perform_all,
}
use automated_trading_bot.Stage5.Journal.Kept.{OnJournal}
use automated_trading_bot.Stage5.Journal.WellFormed.{IsWellFormed, perform_all-IsWellFormed}
use automated_trading_bot.Stage5.Journal.Holding.{IsHeld}
use automated_trading_bot.Stage5.Journal.Held.{Resolved, perform_all-IsHeld}
use automated_trading_bot.Stage5.Journal.Closing.{IsClosed}
use automated_trading_bot.Stage5.Journal.Exposure.{Opened, construct-IsClosed}

abbrev pick : Tables → String → Option RecoveryRecord
pick t operation = find (λ row. str_eq row.operation_id operation) t.intents

abbrev empty_tables : Tables
empty_tables = record {
  intents = [];
  gate = none;
  conflicts = [];
  identity = none;
  admissions = [];
}

abbrev empty_journal : RecoveryJournal
empty_journal = record {
  tables = empty_tables;
  closed_sentinel = false;
  authority = none;
  persistence_unresolved_reason = none;
}

abbrev admission : AdmissionEvidence
admission = record {
  operation_id = "op";
  attempt_id = "a-1";
  request_digest = "d";
  timeproof_identity = "t-1";
  authority_identity = "authority";
  authority_generation = 3;
  authority_epoch = 7;
  admitted_ns = 5;
}

abbrev held_row : RecoveryRecord
held_row = record {
  operation_id = "op";
  attempt_id = "a-1";
  request_digest = "d";
  worker_pid = some 77;
  transaction_uncertain = true;
  state = ambiguous_hold;
  g00_sequence = "g";
  recovery_attempts = 0;
  recovery_result = none;
  reconciliation_evidence = some "COMMIT_OUTCOME_UNKNOWN";
  updated_ns = 9;
}

abbrev held_journal : RecoveryJournal
held_journal = record empty_journal { tables = record empty_tables { intents = held_row ∷ [] } }

abbrev denial : Denial
denial = record { sentinel_written = true; gate_written = false; denied_ns = 11 }

abbrev life : List Command
life =
    prepare completes admission 77 "g" 5
    ∷ mark expired_late "op" "a-1" 6
    ∷ hold_it (unresolved_commit true denial) "op" "a-1" "TIMEOUT" 7
    ∷ fail completes "op" "a-1" "TOO_LATE" 8
    ∷ []

perform_all-IsWellFormed_example : OnJournal IsWellFormed (perform_all toy pick life empty_journal)
perform_all-IsWellFormed_example =
    perform_all-IsWellFormed toy pick life empty_journal
      (record { fenced = tt; keyed = tt; consumed = tt })

perform_all-IsHeld_example :
    OnJournal (IsHeld "op" "a-1") (perform_all toy pick life held_journal)
    ⊎ Resolved toy pick "op" "a-1" life held_journal
perform_all-IsHeld_example = perform_all-IsHeld toy pick "op" "a-1" life held_journal refl

abbrev opened : RecoveryJournal
opened = journal_after (construct toy completes denial true none "token" 3 empty_tables false)

constructed :
    construct toy completes denial true none "token" 3 empty_tables false ≡ returned opened
unfolding construct connect on_tables
constructed = refl

construct-IsClosed_example :
    IsClosed (perform_all toy pick life opened) ⊎ Opened toy pick life opened
construct-IsClosed_example =
    construct-IsClosed toy pick completes denial true none "token" 3 empty_tables false opened life
      constructed

abbrev denied_row : RecoveryRecord
denied_row = record held_row {
  attempt_id = "a";
  transaction_uncertain = false;
  state = recovered_denied;
}

-- The journal of an installation whose attempt was recovered as denied.
abbrev denied_journal : RecoveryJournal
denied_journal = record empty_journal {
  authority = some verifier;
  tables = record empty_tables {
    intents = denied_row ∷ [];
    identity = some (record {
      installation_id = "i";
      authority_fingerprint = "fingerprint";
      bootstrap_challenge = "c";
      bootstrap_consumed = true;
      created_ns = 1;
    });
  };
}

abbrev evidence : Evidence
evidence = record {
  row = denied_row;
  outcome = outcome_committed;
  authority =
      verifier_after toy verifier
        (consume_terminal toy verifier 50 final_receipt "c" "op" "d" "a" "g" outcome_committed);
}

bound : require_authority_binding toy denied_journal ≡ ok verifier
unfolding require_authority_binding
bound = refl

consumed : consumption toy verifier "op" "a" "d" final_receipt 50 denied_journal ≡ ok evidence
unfolding consumption bootstrap_challenge row_of consume_terminal validate_common
    verify_rsa_signature consume
consumed = refl

consumption-IsEvidence_example :
    IsEvidence toy verifier "op" "a" "d" final_receipt 50 denied_journal evidence
consumption-IsEvidence_example =
    consumption-IsEvidence toy verifier "op" "a" "d" final_receipt 50 denied_journal evidence
      consumed

resolve-contrary_example : IsContested "op" "a" (
    resolve_authenticated_terminal toy completes completes denial "op" "a" "d" final_receipt 50
      denied_journal)
resolve-contrary_example =
    resolve-contrary toy verifier denial "op" "a" "d" final_receipt 50 denied_journal evidence bound
      consumed refl

-- The same journal while its attempt is on hold, and its exposure closed.
abbrev waiting_row : RecoveryRecord
waiting_row = record held_row { attempt_id = "a" }

abbrev waiting_journal : RecoveryJournal
waiting_journal = record denied_journal {
  closed_sentinel = true;
  persistence_unresolved_reason = some "TIMEOUT";
  tables = record denied_journal.tables {
    intents = waiting_row ∷ [];
    gate = some (record { is_open = false; evidence = "TIMEOUT"; updated_ns = 9 });
  };
}

abbrev next_receipt : RecoveryReceipt
next_receipt = record final_receipt { nonce = "n-3" }

accepted :
    (consume_terminal toy verifier 50 final_receipt "c" "op" "d" "a" "g" outcome_committed
      ≡ ok (spend toy final_receipt 50 verifier))
    × (consume_terminal toy verifier 60 next_receipt "c" "op" "d" "a" "g" outcome_committed
        ≡ ok (spend toy next_receipt 60 verifier))
unfolding consume_terminal validate_common verify_rsa_signature consume
accepted = (refl, refl)

recoverable : IsRecoverable "op" "a" "d" waiting_row waiting_journal
unfolding row_of has_conflict
recoverable = record {
  named = λ e. cc;
  digested = λ e. cc;
  found = refl;
  request = refl;
  held = refl;
  uncontested = refl;
  alone = refl;
  gate = record { is_open = false; evidence = "TIMEOUT"; updated_ns = 9 };
  gated = refl;
}

waiting_bound : require_authority_binding toy waiting_journal ≡ ok verifier
unfolding require_authority_binding
waiting_bound = refl

challenged : bootstrap_challenge waiting_journal ≡ ok "c"
unfolding bootstrap_challenge
challenged = refl

abbrev reopening_journal : RecoveryJournal
reopening_journal = journal_after (
    resolve_authenticated_terminal toy completes completes denial "op" "a" "d" final_receipt 50
      waiting_journal)

fetched : pick reopening_journal.tables "op" ≡ row_of "op" "a" reopening_journal.tables
unfolding resolve_authenticated_terminal require_authority_binding connect on_tables resolution
    verdict_on consumption bootstrap_challenge row_of has_conflict update_where consume_terminal
    validate_common verify_rsa_signature consume
fetched = refl

fresh : final_receipt.nonce ≢ next_receipt.nonce
fresh e = let bad : true ≡ false = ap (str_eq "n-2") e in cc

requalify-IsReopened_example :
    IsReopened "op" "a"
      (cleared "op" "d" outcome_committed "n-2" 50 waiting_row)
      next_receipt
      60
      (spend toy next_receipt 60 (spend toy final_receipt 50 verifier))
      (requalify_exposure toy completes true denial pick "op" "d" next_receipt 60 reopening_journal)
requalify-IsReopened_example =
    requalify-IsReopened toy "op" "a" "d" "c" waiting_row outcome_committed verifier
      (spend toy final_receipt 50 verifier) (spend toy next_receipt 60 verifier) final_receipt
      next_receipt 50 60 waiting_journal denial pick denial recoverable waiting_bound challenged
      accepted.0 accepted.1 fresh fetched
