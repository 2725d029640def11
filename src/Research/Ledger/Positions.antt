-- ===== src/Research/Ledger/Positions.antt =====
-- The positions as a dictionary and as the sorted tuple of the state.
use mathlib.Core.Path.{subst}
use automated_trading_bot.Prelude.{
  ℕ, ◌<◌, ◌≡◌, ◌≢◌, refl, false, Option, none, some, List, [], ◌∷◌, foldl, leb, ◌==◌, ◌∙◌, arith,
  if◌then◌else◌, All, ==_iff, sym, inl, inr, Bool-cases,
}
use automated_trading_bot.Decimal.{zero_dec, ltb_dec}
use automated_trading_bot.Research.Ledger.State.{
  PositionState, get, put, dict_of, insert_sorted, sort, write,
}

abbrev pub Differs : PositionState → PositionState → Type 0
Differs p q = q.instrument_id ≢ p.instrument_id

-- No instrument is listed twice.
abbrev pub Distinct : List PositionState → Type 0
Distinct [] = Unit
Distinct (p ∷ ps) = All (Differs p) ps × Distinct ps

-- The instruments rise strictly.
abbrev pub Ascending : List PositionState → Type 0
Ascending [] = Unit
Ascending (p ∷ ps) = All (λ q. p.instrument_id < q.instrument_id) ps × Ascending ps

-- No quantity is negative.
abbrev pub IsLong : PositionState → Type 0
IsLong p = ltb_dec p.quantity zero_dec ≡ false

abbrev or_else : Option PositionState → Option PositionState → Option PositionState
or_else none b = b
or_else (some a) b = some a

pub get-put :
    (j : ℕ) (p : PositionState) (d : List PositionState)
    → get j (put p d) ≡ (if p.instrument_id == j then some p else get j d)
unfolding put
get-put j p [] = refl
get-put j p (q ∷ d) = ground (arith, get-put j p d)

get-insert_sorted :
    (j : ℕ) (p : PositionState) (d : List PositionState)
    → get j (insert_sorted p d) ≡ (if p.instrument_id == j then some p else get j d)
unfolding insert_sorted
get-insert_sorted j p [] = refl
get-insert_sorted j p (q ∷ d) = ground (arith, get-insert_sorted j p d)

pub get-sort : (j : ℕ) (d : List PositionState) → get j (sort d) ≡ get j d
unfolding sort
get-sort j [] = refl
get-sort j (p ∷ d) = ground (arith, get-sort j d, get-insert_sorted j p (sort d))

get-absent : (j : ℕ) (d : List PositionState) → All (λ q. q.instrument_id ≢ j) d → get j d ≡ none
get-absent j [] h = refl
get-absent j (q ∷ d) h = ground (arith, get-absent j d h.1)

-- What differs from one of two equal identities differs from the other.
All-ne-subst :
    {a b : ℕ} (d : List PositionState)
    → a ≡ b
    → All (λ q. q.instrument_id ≢ a) d
    → All (λ q. q.instrument_id ≢ b) d
All-ne-subst d = subst (λ k. All (λ q. q.instrument_id ≢ k) d)

get-foldl-put :
    (j : ℕ) (xs d : List PositionState)
    → Distinct xs
    → get j (foldl (λ d p. put p d) d xs) ≡ or_else (get j xs) (get j d)
get-foldl-put j [] d h = refl
get-foldl-put j (p ∷ xs) d h = elim (Bool-cases (p.instrument_id == j)) [
  | inl e ↦ ground (
    arith,
    get-foldl-put j xs (put p d) h.1,
    get-put j p d,
    get-absent j xs (All-ne-subst xs ((==_iff _ _).0 e) h.0),
  )
  | inr e ↦ ground (arith, get-foldl-put j xs (put p d) h.1, get-put j p d)
]

pub get-dict_of : (j : ℕ) (ps : List PositionState) → Distinct ps → get j (dict_of ps) ≡ get j ps
unfolding dict_of
get-dict_of j ps h = ground (arith, get-foldl-put j ps [] h)

module _ {ℓ} (P : PositionState → Type ℓ) where
  All-put : (p : PositionState) (d : List PositionState) → P p → All P d → All P (put p d)
  unfolding put
  All-put p [] h k = (h, tt)
  All-put p (q ∷ d) h k = elim (Bool-cases (q.instrument_id == p.instrument_id)) [
    | inl e ↦ rw e (h, k.1)
    | inr e ↦ rw e (k.0, All-put p d h k.1)
  ]

  All-insert_sorted :
      (p : PositionState) (d : List PositionState) → P p → All P d → All P (insert_sorted p d)
  unfolding insert_sorted
  All-insert_sorted p [] h k = (h, tt)
  All-insert_sorted p (q ∷ d) h k = elim (Bool-cases (leb p.instrument_id q.instrument_id)) [
    | inl e ↦ rw e (h, k)
    | inr e ↦ rw e (k.0, All-insert_sorted p d h k.1)
  ]

  pub All-sort : (d : List PositionState) → All P d → All P (sort d)
  unfolding sort
  All-sort [] h = tt
  All-sort (p ∷ d) h = All-insert_sorted p (sort d) h.0 (All-sort d h.1)

  All-foldl-put :
      (xs d : List PositionState) → All P xs → All P d → All P (foldl (λ d p. put p d) d xs)
  All-foldl-put [] d h k = k
  All-foldl-put (p ∷ xs) d h k = All-foldl-put xs (put p d) h.1 (All-put p d h.0 k)

  pub All-dict_of : (xs : List PositionState) → All P xs → All P (dict_of xs)
  unfolding dict_of
  All-dict_of xs h = All-foldl-put xs [] h tt

Distinct-put : (p : PositionState) (d : List PositionState) → Distinct d → Distinct (put p d)
unfolding put
Distinct-put p [] h = (tt, tt)
Distinct-put p (q ∷ d) h = elim (Bool-cases (q.instrument_id == p.instrument_id)) [
  | inl e ↦ rw e (All-ne-subst d ((==_iff _ _).0 e) h.0, h.1)
  | inr e ↦
      rw e (All-put (Differs q) p d (λ k. cc (e, (==_iff _ _).1 (sym k))) h.0, Distinct-put p d h.1)
]

Distinct-foldl-put :
    (xs d : List PositionState) → Distinct d → Distinct (foldl (λ d p. put p d) d xs)
Distinct-foldl-put [] d h = h
Distinct-foldl-put (p ∷ xs) d h = Distinct-foldl-put xs (put p d) (Distinct-put p d h)

pub Distinct-dict_of : (xs : List PositionState) → Distinct (dict_of xs)
unfolding dict_of
Distinct-dict_of xs = Distinct-foldl-put xs [] tt

pub Distinct-write :
    (w : Option PositionState) (d : List PositionState) → Distinct d → Distinct (write w d)
unfolding write
Distinct-write none d h = h
Distinct-write (some p) d h = Distinct-put p d h

All-lt_trans :
    (a b : ℕ) (d : List PositionState)
    → a < b
    → All (λ q. b < q.instrument_id) d
    → All (λ q. a < q.instrument_id) d
All-lt_trans a b [] l h = tt
All-lt_trans a b (q ∷ d) l h = (omega arith, All-lt_trans a b d l h.1)

Ascending-insert_sorted :
    (p : PositionState) (d : List PositionState)
    → All (Differs p) d
    → Ascending d
    → Ascending (insert_sorted p d)
unfolding insert_sorted
Ascending-insert_sorted p [] n h = (tt, tt)
Ascending-insert_sorted p (q ∷ d) n h = elim (Bool-cases (leb p.instrument_id q.instrument_id)) [
  | inl e ↦
      let l : p.instrument_id < q.instrument_id = ground (arith, n.0) in
      rw e ((l, All-lt_trans _ _ d l h.0), h)
  | inr e ↦ rw e (
    All-insert_sorted (λ x. q.instrument_id < x.instrument_id) p d (ground arith) h.0,
    Ascending-insert_sorted p d n.1 h.1,
  )
]

pub Ascending-sort : (d : List PositionState) → Distinct d → Ascending (sort d)
unfolding sort
Ascending-sort [] h = tt
Ascending-sort (p ∷ d) h =
    Ascending-insert_sorted p (sort d) (All-sort (Differs p) d h.0) (Ascending-sort d h.1)

All-lt-ne :
    (a : ℕ) (d : List PositionState)
    → All (λ q. a < q.instrument_id) d
    → All (λ q. q.instrument_id ≢ a) d
All-lt-ne a [] h = tt
All-lt-ne a (q ∷ d) h = (omega arith, All-lt-ne a d h.1)

pub Ascending-Distinct : (d : List PositionState) → Ascending d → Distinct d
Ascending-Distinct [] h = tt
Ascending-Distinct (p ∷ d) h = (All-lt-ne _ d h.0, Ascending-Distinct d h.1)

-- A lookup in the state that `_transition` builds from a written position.
pub get-written :
    (j : ℕ) (p : PositionState) (ps : List PositionState)
    → Ascending ps
    → get j (sort (write (some p) (dict_of ps)))
      ≡ (if p.instrument_id == j then some p else get j ps)
unfolding write
get-written j p ps h = ground (
  arith,
  get-sort j (put p (dict_of ps)),
  get-put j p (dict_of ps),
  get-dict_of j ps (Ascending-Distinct ps h),
)

pub get-unwritten :
    (j : ℕ) (ps : List PositionState)
    → Ascending ps
    → get j (sort (write none (dict_of ps))) ≡ get j ps
unfolding write
get-unwritten j ps h = get-sort j (dict_of ps) ∙ get-dict_of j ps (Ascending-Distinct ps h)

pub IsLong-written :
    (w : Option PositionState) (ps : List PositionState)
    → ((p : PositionState) → w ≡ some p → IsLong p)
    → All IsLong ps
    → All IsLong (sort (write w (dict_of ps)))
unfolding write
IsLong-written none ps hw h = All-sort IsLong (dict_of ps) (All-dict_of IsLong ps h)
IsLong-written (some p) ps hw h =
    All-sort IsLong (put p (dict_of ps))
      (All-put IsLong p (dict_of ps) (hw p refl) (All-dict_of IsLong ps h))
