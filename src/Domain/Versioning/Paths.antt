-- ===== src/Domain/Versioning/Paths.antt =====
-- The upcast routes of domain/versioning.py: what a registry holds, and that `_path` ends.
use automated_trading_bot.Prelude.{
  ℕ, zero, suc, true, false, ◌||◌, not, some, List, [], ◌∷◌, ltb, leb, str_eq, eq_iff, is_some,
  is_none, ok, raise_if, >>=-eq-ok, >>-eq-ok, raise_if-eq-ok, ok_injective, Bool-cases,
  Option-cases, All, All-snoc, ◌≡◌, ◌≢◌, inl, inr, refl, ap, ◌∙◌, ◌≤◌, ◌<◌, ◌+◌, arith, ◌↔◌,
}
use mathlib.Core.Path.{subst}
use automated_trading_bot.Domain.Versioning.Registry.{
  invalid_registry, ContractVersion, version_eq, require_identity, VersionDefinition,
  UpcastDefinition, VersionRegistry, find_codec, find_route, add_route, add_definitions, is_empty,
  add_routes, build, Walk, found, no_route, out_of_fuel, extend, walk,
}
use automated_trading_bot.Domain.Versioning.Interpret.{path, is_backward}

pub version_eq-true : (a b : ContractVersion) → version_eq a b ≡ true → a ≡ b
unfolding version_eq
version_eq-true a b h = ground (arith, eq_iff a.family b.family)

pub version_eq_refl : (a : ContractVersion) → version_eq a a ≡ true
unfolding version_eq
version_eq_refl a = ground (arith, eq_iff a.family a.family)

later_ne : (a b : ContractVersion) → a.version < b.version → version_eq a b ≡ false
unfolding version_eq
later_ne a b l = ground arith

module _ {Value : Type 0} where
  -- A route goes forward within one family.
  pub record Advances (r : UpcastDefinition Value) : Type 0 where
    pub family : r.target.family ≡ r.source.family
    pub version : r.source.version < r.target.version

  pub IsForward : VersionRegistry Value → Type 0
  IsForward registry = All Advances registry.routes

  checked-Advances :
      (r : UpcastDefinition Value)
      → (not (str_eq r.source.family r.target.family) || leb r.target.version r.source.version)
        ≡ false
      → Advances r
  checked-Advances r h = record {
    family = ground (arith, eq_iff r.source.family r.target.family);
    version = ground arith;
  }

  add_route-IsForward :
      (codecs : List (VersionDefinition Value)) (routes : List (UpcastDefinition Value))
      (r : UpcastDefinition Value) {next : List (UpcastDefinition Value)}
      → All Advances routes
      → add_route codecs routes r ≡ ok next
      → All Advances next
  unfolding add_route
  add_route-IsForward codecs routes r a h =
      let s1 = (>>-eq-ok (require_identity r.source) _ h).1 in
      let s2 = (>>-eq-ok (require_identity r.target) _ s1).1 in
      let s3 =
        (>>-eq-ok
          (raise_if (is_none (find_codec r.source codecs) || is_none (find_codec r.target codecs))
            _)
          _ s2).1 in
      let s4 =
        >>-eq-ok
          (raise_if
            (not (str_eq r.source.family r.target.family) || leb r.target.version r.source.version)
            _)
          _ s3 in
      let s5 = >>-eq-ok (raise_if (is_some (find_route r.source routes)) _) _ s4.1 in
      subst (All Advances) (ok_injective s5.1) (
        All-snoc Advances r routes a (
          checked-Advances r (
            raise_if-eq-ok
              (not (str_eq r.source.family r.target.family)
                || leb r.target.version r.source.version)
              invalid_registry s4.0)))

  find_route_found :
      (v : ContractVersion) (rs : List (UpcastDefinition Value)) {r : UpcastDefinition Value}
      → All Advances rs
      → find_route v rs ≡ some r
      → (r.source ≡ v) × Advances r
  find_route_found v [] a h = cc
  find_route_found v (q ∷ rs) a h = elim (Bool-cases (version_eq q.source v)) [
    | inl t ↦ ground (arith, version_eq-true q.source v t)
    | inr f ↦ find_route_found v rs a.1 (ground arith)
  ]

  add_routes-IsForward :
      (codecs : List (VersionDefinition Value)) (routes rs : List (UpcastDefinition Value))
      {next : List (UpcastDefinition Value)}
      → All Advances routes
      → add_routes codecs routes rs ≡ ok next
      → All Advances next
  unfolding add_routes
  add_routes-IsForward codecs routes [] a h = subst (All Advances) (ok_injective h) a
  add_routes-IsForward codecs routes (r ∷ rs) a h =
      let (mid, e, rest) = >>=-eq-ok (add_route codecs routes r) (λ m. add_routes codecs m rs) h in
      add_routes-IsForward codecs mid rs (add_route-IsForward codecs routes r a e) rest

  -- Every route of a registry that the constructor builds goes forward within one family.
  pub build-IsForward :
      (definitions : List (VersionDefinition Value)) (upcasts : List (UpcastDefinition Value))
      {registry : VersionRegistry Value}
      → build definitions upcasts ≡ ok registry
      → IsForward registry
  unfolding build IsForward
  build-IsForward definitions upcasts h =
      let (codecs, e, rest) = >>=-eq-ok (add_definitions [] definitions) _ h in
      let (_, more) = >>-eq-ok (raise_if (is_empty codecs) invalid_registry) _ rest in
      let (routes, e', last) = >>=-eq-ok (add_routes codecs [] upcasts) _ more in
      subst IsForward (ok_injective last) (add_routes-IsForward codecs [] upcasts tt e')

  -- A path: consecutive routes of the registry from a version to another, versions rising.
  pub IsChain :
      VersionRegistry Value
      → ContractVersion
      → List (UpcastDefinition Value)
      → ContractVersion
      → Type 0
  IsChain registry source [] target = source ≡ target
  IsChain registry source (r ∷ routes) target =
      (find_route source registry.routes ≡ some r)
      × (source.version < r.target.version)
      × IsChain registry r.target routes target

  -- What the loop of `_path` returns on each of its ends, from fuel that the versions allow.
  Ends : VersionRegistry Value → ContractVersion → ContractVersion → Walk Value → Type 0
  Ends registry source target (found routes) = IsChain registry source routes target
  Ends registry source target no_route = Unit
  Ends registry source target out_of_fuel = ⊥

  extend-Ends :
      (registry : VersionRegistry Value) (source target : ContractVersion)
      (r : UpcastDefinition Value) (w : Walk Value)
      → find_route source registry.routes ≡ some r
      → source.version < r.target.version
      → Ends registry r.target target w
      → Ends registry source target (extend r w)
  unfolding Ends IsChain
  extend-Ends registry source target r (found routes) f l e = (f, l, e)
  extend-Ends registry source target r no_route f l e = tt
  extend-Ends registry source target r out_of_fuel f l e = e

  -- With more fuel than versions are left, the loop ends.
  walk-Ends :
      (fuel : ℕ) (registry : VersionRegistry Value) (source target : ContractVersion)
      → IsForward registry
      → source.family ≡ target.family
      → source.version ≤ target.version
      → target.version < source.version + fuel
      → Ends registry source target (walk fuel registry source target)
  unfolding walk IsForward Ends IsChain
  walk-Ends zero registry source target f s l b = absurd (omega arith)
  walk-Ends (suc fuel) registry source target f s l b =
      elim (Bool-cases (version_eq source target)) [
        | inl t ↦ rw (Ends, t) (version_eq-true source target t)
        | inr n ↦ elim (Option-cases (find_route source registry.routes)) [
          | inl e ↦ rw (Ends, n, e) tt
          | inr (r, e) ↦
              let (same, a) = find_route_found source registry.routes f e in
              elim (Bool-cases (ltb target.version r.target.version)) [
                | inl past ↦ rw (Ends, n, e, past) tt
                | inr near ↦
                    rw (Ends, n, e, near)
                      (extend-Ends registry source target r (walk fuel registry r.target target) e
                        (ground arith)
                        (walk-Ends fuel registry r.target target f
                          (a.family ∙ ap (λ v. v.family) same ∙ s) (ground arith) (ground arith)))
              ]
        ]
      ]

  chain_rises :
      (registry : VersionRegistry Value) (source target : ContractVersion)
      (routes : List (UpcastDefinition Value))
      → IsChain registry source routes target
      → source.version ≤ target.version
  unfolding IsChain
  chain_rises registry source target [] c = ground (arith, ap (λ v. v.version) c)
  chain_rises registry source target (r ∷ routes) c =
      ground (arith, c.1, chain_rises registry r.target target routes c.2)

  -- The loop finds a chain that is there.
  walk-chain :
      (fuel : ℕ) (registry : VersionRegistry Value) (source target : ContractVersion)
      (routes : List (UpcastDefinition Value))
      → IsChain registry source routes target
      → target.version < source.version + fuel
      → walk fuel registry source target ≡ found routes
  unfolding walk IsChain
  walk-chain zero registry source target routes c b =
      absurd (ground (arith, chain_rises registry source target routes c))
  walk-chain (suc fuel) registry source target [] c b =
      rw (walk, subst (λ v. version_eq source v ≡ true) c (version_eq_refl source)) refl
  walk-chain (suc fuel) registry source target (r ∷ routes) c b =
      let up = chain_rises registry r.target target routes c.2 in
      let near : ltb target.version r.target.version ≡ false = ground arith in
      let away = later_ne source target (omega (arith, up, c.1)) in
      rw (walk, away, c.0, near)
        (ap (extend r)
          (walk-chain fuel registry r.target target routes c.2 (omega (arith, up, c.1, b))))

  -- In a registry that the constructor has built, between versions that do not go back, the search
  -- for upcasts ends, and it returns a path exactly when that is a chain of the registry's routes
  -- from the source to the target with rising versions.
  pub path-IsChain :
      (definitions : List (VersionDefinition Value)) (upcasts : List (UpcastDefinition Value))
      (registry : VersionRegistry Value) (source target : ContractVersion)
      → build definitions upcasts ≡ ok registry
      → is_backward source target ≡ false
      → (path registry source target ≢ out_of_fuel)
        × ((routes : List (UpcastDefinition Value))
            → (path registry source target ≡ found routes) ↔ IsChain registry source routes target)
  unfolding path Ends
  path-IsChain definitions upcasts registry source target built forward =
      let same : source.family ≡ target.family =
        ground (arith, eq_iff source.family target.family) in
      let ends =
        walk-Ends (suc target.version) registry source target
          (build-IsForward definitions upcasts built) same (ground arith) (omega arith) in
      (
        λ e. subst (Ends registry source target) e ends,
        λ routes. (
          λ e. subst (Ends registry source target) e ends,
          λ c. walk-chain (suc target.version) registry source target routes c (omega arith),
        ),
      )
