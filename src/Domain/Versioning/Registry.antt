-- ===== src/Domain/Versioning/Registry.antt =====
-- The version registry of domain/versioning.py: its construction and its lookups. Codecs and
-- upcasts are the caller's functions, over the caller's values; a call that raises is an `err` or a
-- `none`. Bytes are lists of numbers.
use automated_trading_bot.Prelude.{
  ℕ, zero, suc, String, Bool, true, false, ◌&&◌, ◌||◌, not, Option, none, some, List, [], ◌∷◌, ◌++◌,
  ltb, leb, ◌==◌, str_eq, if◌then◌else◌, is_some, is_none, any, Result, ok, err, ◌>>=◌, ◌>>◌,
  raise_if,
}
use automated_trading_bot.Prelude.Texts.{is_unpadded}

-- `VersioningError` and its subclasses.
pub data VersioningError : Type 0 where
  invalid_version_identity unknown_contract unsupported_version : VersioningError
  malformed_representation codec_failure missing_upcast_path : VersioningError
  upcast_failure invalid_registry : VersioningError

abbrev pub Versioned : Type 0 → Type 0
Versioned A = Result VersioningError A

pub record ContractVersion : Type 0 where
  pub family : String
  pub version : ℕ

unfoldable pub version_eq : ContractVersion → ContractVersion → Bool
version_eq a b = str_eq a.family b.family && a.version == b.version

-- `_require_identity`, and `ContractVersion.__post_init__`
unfoldable pub require_identity : ContractVersion → Versioned (Unit {0})
require_identity v = do
  raise_if (str_eq v.family "" || not (is_unpadded v.family)) invalid_version_identity
  raise_if (ltb v.version 1) invalid_version_identity

abbrev pub Bytes : Type 0
Bytes = List ℕ

-- What a decoder raises: its rejection of the input, or any other exception.
pub data DecodeError : Type 0 where
  rejected raised : DecodeError

module _ (Value : Type 0) where
  pub record Codec : Type 0 where
    pub encode : Value → Option Bytes
    pub decode : Bytes → Result DecodeError Value

  pub record VersionDefinition : Type 0 where
    pub identity : ContractVersion
    pub codec : Codec

  pub record UpcastDefinition : Type 0 where
    pub source : ContractVersion
    pub target : ContractVersion
    pub transform : Value → Option Value

  -- The registry's maps, as the definitions that they hold, in order.
  pub record VersionRegistry : Type 0 where
    pub codecs : List VersionDefinition
    pub routes : List UpcastDefinition

-- What the loop of `_path` ends with: a path, no approved route, or the end of its fuel.
pub data Walk (Value : Type 0) : Type 0 where
  found : List (UpcastDefinition Value) → Walk Value
  no_route : Walk Value
  out_of_fuel : Walk Value

module _ {Value : Type 0} where
  abbrev pub find_codec : ContractVersion → List (VersionDefinition Value) → Option (Codec Value)
  find_codec v [] = none
  find_codec v (d ∷ ds) = if version_eq d.identity v then some d.codec else find_codec v ds

  abbrev pub find_route :
      ContractVersion → List (UpcastDefinition Value) → Option (UpcastDefinition Value)
  find_route v [] = none
  find_route v (r ∷ rs) = if version_eq r.source v then some r else find_route v rs

  unfoldable pub add_definition :
      List (VersionDefinition Value)
      → VersionDefinition Value
      → Versioned (List (VersionDefinition Value))
  add_definition codecs d = do
    require_identity d.identity
    raise_if (is_some (find_codec d.identity codecs)) invalid_registry
    ok (codecs ++ d ∷ [])

  unfoldable pub add_definitions :
      List (VersionDefinition Value)
      → List (VersionDefinition Value)
      → Versioned (List (VersionDefinition Value))
  add_definitions codecs [] = ok codecs
  add_definitions codecs (d ∷ ds) = do next ← add_definition codecs d; add_definitions next ds

  unfoldable pub add_route :
      List (VersionDefinition Value)
      → List (UpcastDefinition Value)
      → UpcastDefinition Value
      → Versioned (List (UpcastDefinition Value))
  add_route codecs routes r = do
    require_identity r.source
    require_identity r.target
    raise_if (is_none (find_codec r.source codecs) || is_none (find_codec r.target codecs))
        invalid_registry
    raise_if (not (str_eq r.source.family r.target.family) || leb r.target.version r.source.version)
        invalid_registry
    raise_if (is_some (find_route r.source routes)) invalid_registry
    ok (routes ++ r ∷ [])

  unfoldable pub add_routes :
      List (VersionDefinition Value)
      → List (UpcastDefinition Value)
      → List (UpcastDefinition Value)
      → Versioned (List (UpcastDefinition Value))
  add_routes codecs routes [] = ok routes
  add_routes codecs routes (r ∷ rs) = do next ← add_route codecs routes r; add_routes codecs next rs

  abbrev pub is_empty : List (VersionDefinition Value) → Bool
  is_empty [] = true
  is_empty (_ ∷ _) = false

  -- `VersionRegistry.__init__`
  unfoldable pub build :
      List (VersionDefinition Value)
      → List (UpcastDefinition Value)
      → Versioned (VersionRegistry Value)
  build definitions upcasts = do
    codecs ← add_definitions [] definitions
    raise_if (is_empty codecs) invalid_registry
    routes ← add_routes codecs [] upcasts
    ok (record { codecs = codecs; routes = routes })

  abbrev or_unsupported : Option (Codec Value) → Versioned (Codec Value)
  or_unsupported none = err unsupported_version
  or_unsupported (some c) = ok c

  unfoldable pub codec_for : VersionRegistry Value → ContractVersion → Versioned (Codec Value)
  codec_for registry v = do
    require_identity v
    raise_if (not (any (λ d. str_eq d.identity.family v.family) registry.codecs)) unknown_contract
    or_unsupported (find_codec v registry.codecs)

  abbrev pub extend : UpcastDefinition Value → Walk Value → Walk Value
  extend r (found path) = found (r ∷ path)
  extend r no_route = no_route
  extend r out_of_fuel = out_of_fuel

  -- The loop of `_path`, from the current version on.
  unfoldable pub walk : ℕ → VersionRegistry Value → ContractVersion → ContractVersion → Walk Value
  walk zero registry current target = out_of_fuel
  walk (suc fuel) registry current target = elim (version_eq current target) [
    | true ↦ found []
    | false ↦ elim (find_route current registry.routes) [
      | none ↦ no_route
      | some r ↦ elim (ltb target.version r.target.version) [
        | true ↦ no_route
        | false ↦ extend r (walk fuel registry r.target target)
      ]
    ]
  ]
