-- ===== src/Domain/Versioning/Interpret.antt =====
-- The path search, the compatibility test and the interpretation of domain/versioning.py.
use automated_trading_bot.Prelude.{
  suc, Bool, true, false, ◌&&◌, ◌||◌, not, Option, none, some, List, [], ◌∷◌, ltb, ◌==◌, map,
  str_eq, if◌then◌else◌, Result, ok, err, ◌>>=◌, ◌>>◌, raise_if,
}
use automated_trading_bot.Domain.Versioning.Registry.{
  malformed_representation, codec_failure, missing_upcast_path, upcast_failure, Versioned,
  ContractVersion, version_eq, Bytes, DecodeError, rejected, raised, Codec, UpcastDefinition,
  VersionRegistry, Walk, found, no_route, out_of_fuel, walk, codec_for,
}

pub data Compatibility : Type 0 where
  supported_native supported_via_approved_upcast unsupported : Compatibility

pub record Interpretation (Value : Type 0) : Type 0 where
  pub original : ContractVersion
  pub target : ContractVersion
  pub original_bytes : Bytes
  pub value : Value
  pub transformation_path : List ContractVersion

abbrev pub bytes_eq : Bytes → Bytes → Bool
bytes_eq [] [] = true
bytes_eq [] (c ∷ cs) = false
bytes_eq (b ∷ bs) [] = false
bytes_eq (b ∷ bs) (c ∷ cs) = b == c && bytes_eq bs cs

-- `original.family != target.family or original.version > target.version`
abbrev pub is_backward : ContractVersion → ContractVersion → Bool
is_backward a b = not (str_eq a.family b.family) || ltb b.version a.version

unfoldable pub encoded : Option Bytes → Versioned Bytes
encoded none = err codec_failure
encoded (some b) = ok b

module _ {Value : Type 0} where
  -- `_path`: versions only rise, so that the target's version bounds the steps.
  unfoldable pub path : VersionRegistry Value → ContractVersion → ContractVersion → Walk Value
  path registry source target = walk (suc target.version) registry source target

  unfoldable pub compatible : Walk Value → Compatibility
  compatible (found routes) = supported_via_approved_upcast
  compatible no_route = unsupported
  compatible out_of_fuel = unsupported

  unfoldable pub compatibility :
      VersionRegistry Value → ContractVersion → ContractVersion → Versioned Compatibility
  unfolding compatible
  compatibility registry source target = do
    _ ← codec_for registry source
    _ ← codec_for registry target
    ok (
        if version_eq source target
        then supported_native
        else if is_backward source target
        then unsupported
        else compatible (path registry source target))

  unfoldable pub require_path : Walk Value → Versioned (List (UpcastDefinition Value))
  require_path (found routes) = ok routes
  require_path no_route = err missing_upcast_path
  require_path out_of_fuel = err missing_upcast_path

  unfoldable pub decoded : Result DecodeError Value → Versioned Value
  decoded (ok v) = ok v
  decoded (err rejected) = err malformed_representation
  decoded (err raised) = err codec_failure

  abbrev transformed : Option Value → Versioned Value
  transformed none = err upcast_failure
  transformed (some v) = ok v

  unfoldable pub transform_all : List (UpcastDefinition Value) → Value → Versioned Value
  transform_all [] v = ok v
  transform_all (r ∷ routes) v = do next ← transformed (r.transform v); transform_all routes next

  -- What `interpret` does once it has the codec and the path.
  unfoldable pub read :
      Codec Value
      → List (UpcastDefinition Value)
      → ContractVersion
      → Bytes
      → ContractVersion
      → Versioned (Interpretation Value)
  unfolding decoded encoded
  read codec routes original representation target = do
    historical ← decoded (codec.decode representation)
    canonical ← encoded (codec.encode historical)
    raise_if (not (bytes_eq canonical representation)) malformed_representation
    value ← transform_all routes historical
    ok (record {
      original = original;
      target = target;
      original_bytes = representation;
      value = value;
      transformation_path = map (λ r. r.target) routes;
    })

  unfoldable pub interpret :
      VersionRegistry Value
      → ContractVersion
      → Bytes
      → ContractVersion
      → Versioned (Interpretation Value)
  unfolding require_path
  interpret registry original representation target = do
    codec ← codec_for registry original
    _ ← codec_for registry target
    raise_if (is_backward original target) missing_upcast_path
    routes ← require_path (path registry original target)
    read codec routes original representation target
