-- ===== src/Stage5/Journal/Held.antt =====
-- A held row stays held until terminal evidence for it is consumed.
use automated_trading_bot.Prelude.{
  ℕ, String, ◌&&◌, List, [], ◌∷◌, Option, ok, ◌≡◌, ◌⊎◌, inl, inr, str_eq, eq_iff, Bool-cases, arith,
}
use automated_trading_bot.Stage5.Authority.{RecoveryReceipt, Crypto, RecoveryAuthorityVerifier}
use automated_trading_bot.Stage5.Journal.Records.{RecoveryRecord, Tables, RecoveryJournal}
use automated_trading_bot.Stage5.Journal.Connection.{Denial, Fate, journal_after}
use automated_trading_bot.Stage5.Journal.Opening.{require_authority_binding}
use automated_trading_bot.Stage5.Journal.Resolution.{
  Evidence, consumption, resolve_authenticated_terminal,
}
use automated_trading_bot.Stage5.Journal.Commands.{Command, resolve_terminal, perform, perform_all}
use automated_trading_bot.Stage5.Journal.Kept.{OnJournal}
use automated_trading_bot.Stage5.Journal.Lives.{perform-OnJournal}
use automated_trading_bot.Stage5.Journal.Resolved.{resolve-OnJournal}
use automated_trading_bot.Stage5.Journal.Holding.{IsHeld, IsHeld-Law, resolution-IsHeld}

-- The operation is a resolution of the attempt, whose receipt the bound authority has consumed.
pub data Resolves (crypto : Crypto) (o a : String) : Command → RecoveryJournal → Type 0 where
  by_evidence :
      (reading fate : Fate) (d : Denial) (o' a' digest : String) (receipt : RecoveryReceipt)
      (now : ℕ) (j : RecoveryJournal) (v : RecoveryAuthorityVerifier) (e : Evidence)
      → o' ≡ o
      → a' ≡ a
      → require_authority_binding crypto j ≡ ok v
      → consumption crypto v o' a' digest receipt now j ≡ ok e
      → Resolves crypto o a (resolve_terminal reading fate d o' a' digest receipt now) j

module _ (crypto : Crypto) (pick : Tables → String → Option RecoveryRecord) (o a : String) where
  resolve-IsHeld :
      (reading fate : Fate) (d : Denial) (o' a' digest : String) (receipt : RecoveryReceipt)
      (now : ℕ) (j : RecoveryJournal)
      → OnJournal (IsHeld o a) j
      → OnJournal (IsHeld o a) (
          journal_after
            (resolve_authenticated_terminal crypto reading fate d o' a' digest receipt now j))
        ⊎ Resolves crypto o a (resolve_terminal reading fate d o' a' digest receipt now) j
  resolve-IsHeld reading fate d o' a' digest receipt now j q =
      elim (Bool-cases (str_eq o' o && str_eq a' a)) [
        | inl same ↦
            resolve-OnJournal
              (λ i c ad.
                IsHeld o a i c ad
                ⊎ Resolves crypto o a (resolve_terminal reading fate d o' a' digest receipt now) j)
              crypto fate d o' a' digest receipt now reading j (inl q)
              λ v e bound consumed. record {
                at = λ t t' q h. inr (
                    by_evidence reading fate d o' a' digest receipt now j v e
                      (ground (arith, same, eq_iff o' o)) (ground (arith, same, eq_iff a' a)) bound
                      consumed);
              }
        | inr other ↦ inl (
            resolve-OnJournal (IsHeld o a) crypto fate d o' a' digest receipt now reading j q
              λ v e bound consumed. resolution-IsHeld o a o' a' digest e receipt.nonce now other)
      ]

  perform-IsHeld :
      (c : Command) (j : RecoveryJournal)
      → OnJournal (IsHeld o a) j
      → OnJournal (IsHeld o a) (journal_after (perform crypto pick c j)) ⊎ Resolves crypto o a c j
  perform-IsHeld c j q =
      perform-OnJournal (IsHeld-Law o a) crypto pick (Resolves crypto o a) resolve-IsHeld c j q

  -- One of the operations is such a resolution.
  abbrev pub Resolved : List Command → RecoveryJournal → Type 0
  Resolved [] j = ⊥
  Resolved (c ∷ cs) j =
      Resolves crypto o a c j ⊎ Resolved cs (journal_after (perform crypto pick c j))

  -- A row that is held stays held through every sequence of operations, however their connections end,
  -- unless one of them resolves that very attempt with a receipt that the bound authority has consumed
  -- for it.
  pub perform_all-IsHeld :
      (cs : List Command) (j : RecoveryJournal)
      → OnJournal (IsHeld o a) j
      → OnJournal (IsHeld o a) (perform_all crypto pick cs j) ⊎ Resolved cs j
  unfolding perform_all
  perform_all-IsHeld [] j q = inl q
  perform_all-IsHeld (c ∷ cs) j q = elim (perform-IsHeld c j q) [
    | inl held ↦ elim (perform_all-IsHeld cs (journal_after (perform crypto pick c j)) held) [
      | inl held' ↦ inl held'
      | inr later ↦ inr (inr later)
    ]
    | inr now ↦ inr (inl now)
  ]
