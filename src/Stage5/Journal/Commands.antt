-- ===== src/Stage5/Journal/Commands.antt =====
-- The operations of the journal as commands, and a life of the journal as a sequence of them.
use automated_trading_bot.Prelude.{ℕ, String, Bool, List, [], ◌∷◌, Option}
use automated_trading_bot.Stage5.Authority.{RecoveryReceipt, Crypto}
use automated_trading_bot.Stage5.Journal.Records.{
  RecoveryResult, RecoveryRecord, AdmissionEvidence, Tables, RecoveryJournal,
}
use automated_trading_bot.Stage5.Journal.Connection.{
  Denial, Fate, Answer, journal_after, deny_new_exposure,
}
use automated_trading_bot.Stage5.Journal.Intents.{
  reserve_admission_evidence, prepare_protected_dispatch, record_intent, record_capacity_denied,
  bind_worker, mark_effect_possible, hold, unresolved, failed_before_effect, resolved,
}
use automated_trading_bot.Stage5.Journal.Recovery.{authorize_bootstrap, requalify_exposure}
use automated_trading_bot.Stage5.Journal.Resolution.{resolve_authenticated_terminal}

pub data Command : Type 0 where
  reserve : Fate → AdmissionEvidence → Command
  prepare : Fate → AdmissionEvidence → ℕ → String → ℕ → Command
  intend : Fate → String → String → String → String → ℕ → Command
  deny_capacity : Fate → Fate → String → String → String → String → ℕ → Command
  bind : Fate → String → String → ℕ → ℕ → Command
  mark : Fate → String → String → ℕ → Command
  hold_it : Fate → String → String → String → ℕ → Command
  keep_unresolved : Fate → String → String → String → ℕ → Command
  fail : Fate → String → String → String → ℕ → Command
  acknowledge : Fate → String → String → Bool → RecoveryResult → String → ℕ → Command
  resolve_terminal : Fate → Fate → Denial → String → String → String → RecoveryReceipt → ℕ → Command
  bootstrap : Fate → Bool → RecoveryReceipt → ℕ → Command
  requalify : Fate → Bool → Denial → String → String → RecoveryReceipt → ℕ → Command
  deny : Denial → String → Command

module _ (crypto : Crypto) (pick : Tables → String → Option RecoveryRecord) where
  unfoldable pub perform : Command → RecoveryJournal → Answer
  perform (reserve fate e) = reserve_admission_evidence fate e
  perform (prepare fate e pid g00 now) = prepare_protected_dispatch fate e pid g00 now
  perform (intend fate o digest a g00 now) = record_intent fate o digest a g00 now
  perform (deny_capacity fate fate' o digest a g00 now) =
      record_capacity_denied fate fate' o digest a g00 now
  perform (bind fate o a pid now) = bind_worker fate o a pid now
  perform (mark fate o a now) = mark_effect_possible fate o a now
  perform (hold_it fate o a evidence now) = hold fate o a evidence now
  perform (keep_unresolved fate o a evidence now) = unresolved fate o a evidence now
  perform (fail fate o a evidence now) = failed_before_effect fate o a evidence now
  perform (acknowledge fate o a committed result evidence now) =
      resolved fate o a committed result evidence now
  perform (resolve_terminal reading fate d o a digest receipt now) =
      resolve_authenticated_terminal crypto reading fate d o a digest receipt now
  perform (bootstrap fate unlinked receipt now) =
      authorize_bootstrap crypto fate unlinked receipt now
  perform (requalify fate unlinked d o digest receipt now) =
      requalify_exposure crypto fate unlinked d pick o digest receipt now
  perform (deny d reason) = deny_new_exposure d reason

  unfoldable pub perform_all : List Command → RecoveryJournal → RecoveryJournal
  perform_all [] j = j
  perform_all (c ∷ cs) j = perform_all cs (journal_after (perform c j))
