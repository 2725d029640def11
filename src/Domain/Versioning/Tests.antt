-- ===== src/Domain/Versioning/Tests.antt =====
-- A registry of two versions of a counter, the newer one doubled.
use automated_trading_bot.Prelude.{
  ℕ, ◌*◌, some, List, [], ◌∷◌, Result, ok, err, ◌≡◌, ◌≢◌, ◌↔◌, refl,
}
use automated_trading_bot.Prelude.Texts.{is_unpadded}
use automated_trading_bot.Domain.Versioning.Registry.{
  missing_upcast_path, ContractVersion, version_eq, require_identity, Bytes, DecodeError, rejected,
  Codec, VersionDefinition, UpcastDefinition, VersionRegistry, add_definition, add_definitions,
  add_route, add_routes, build, codec_for, found, out_of_fuel, walk,
}
use automated_trading_bot.Domain.Versioning.Interpret.{
  supported_via_approved_upcast, unsupported, Interpretation, path, compatibility, require_path,
  decoded, encoded, transform_all, read, interpret,
}
use automated_trading_bot.Domain.Versioning.Paths.{IsChain, path-IsChain}
use automated_trading_bot.Domain.Versioning.Readings.{
  interpret-compatibility, unsupported_refused, IsReading, interpret-IsReading, native_round_trip,
}

abbrev v1 : ContractVersion
v1 = record { family = "counter"; version = 1 }

abbrev v2 : ContractVersion
v2 = record { family = "counter"; version = 2 }

abbrev decode : Bytes → Result DecodeError ℕ
decode [] = err rejected
decode (n ∷ []) = ok n
decode (n ∷ m ∷ ns) = err rejected

abbrev codec : Codec ℕ
codec = record { encode = λ n. some (n ∷ []); decode = decode }

abbrev definitions : List (VersionDefinition ℕ)
definitions = record { identity = v1; codec = codec } ∷ record { identity = v2; codec = codec } ∷ []

abbrev doubling : UpcastDefinition ℕ
doubling = record { source = v1; target = v2; transform = λ n. some (n * 2) }

abbrev registry : VersionRegistry ℕ
registry = record {
  codecs = record { identity = v1; codec = codec } ∷ record { identity = v2; codec = codec } ∷ [];
  routes = doubling ∷ [];
}

abbrev counted : Interpretation ℕ
counted = record {
  original = v1;
  target = v2;
  original_bytes = 21 ∷ [];
  value = 42;
  transformation_path = v2 ∷ [];
}

built : build definitions (doubling ∷ []) ≡ ok registry
unfolding build add_definitions add_definition add_routes add_route require_identity version_eq
    is_unpadded
built = refl

interpreted : interpret registry v1 (21 ∷ []) v2 ≡ ok counted
unfolding interpret codec_for require_identity is_unpadded version_eq require_path path walk read
    decoded encoded transform_all
interpreted = refl

known : codec_for registry v1 ≡ ok codec
unfolding codec_for require_identity is_unpadded version_eq
known = refl

refused : compatibility registry v2 v1 ≡ ok unsupported
unfolding compatibility codec_for require_identity is_unpadded version_eq
refused = refl

path-IsChain_example :
    (path registry v1 v2 ≢ out_of_fuel)
    × ((routes : List (UpcastDefinition ℕ))
        → (path registry v1 v2 ≡ found routes) ↔ IsChain registry v1 routes v2)
path-IsChain_example = path-IsChain definitions (doubling ∷ []) registry v1 v2 built refl

interpret-compatibility_example : compatibility registry v1 v2 ≡ ok supported_via_approved_upcast
unfolding version_eq
interpret-compatibility_example = interpret-compatibility registry v1 v2 (21 ∷ []) interpreted

unsupported_refused_example : interpret registry v2 (21 ∷ []) v1 ≡ err missing_upcast_path
unsupported_refused_example = unsupported_refused registry v2 v1 (21 ∷ []) refused

interpret-IsReading_example :
    (c : Codec ℕ) × (routes : List (UpcastDefinition ℕ)) × (codec_for registry v1 ≡ ok c)
    × (path registry v1 v2 ≡ found routes)
    × IsReading c routes v1 v2 (21 ∷ []) counted
interpret-IsReading_example = interpret-IsReading registry v1 v2 (21 ∷ []) interpreted

native_round_trip_example :
    interpret registry v1 (7 ∷ []) v1
    ≡ ok (record {
      original = v1;
      target = v1;
      original_bytes = 7 ∷ [];
      value = 7;
      transformation_path = [];
    })
native_round_trip_example = native_round_trip registry v1 codec 7 (7 ∷ []) known refl refl
