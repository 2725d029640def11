-- ===== src/Domain/Versioning/Readings.antt =====
-- What `interpret` of domain/versioning.py returns, and that `compatibility` foretells it.
use automated_trading_bot.Prelude.{
  true, false, not, Option, none, some, List, [], ◌∷◌, map, eq_iff, if◌then◌else◌, Result, ok, err,
  raise_if, >>=-eq-ok, >>-eq-ok, raise_if-eq-ok, ok_injective, ◌≡◌, refl, sym, ap, ◌∙◌, arith,
}
use automated_trading_bot.Domain.Versioning.Registry.{
  missing_upcast_path, ContractVersion, version_eq, Bytes, DecodeError, rejected, raised,
  malformed_representation, Codec, VersionRegistry, Walk, found, no_route, out_of_fuel, walk,
  codec_for, UpcastDefinition,
}
use automated_trading_bot.Domain.Versioning.Interpret.{
  supported_native, supported_via_approved_upcast, unsupported, Interpretation, bytes_eq,
  is_backward, path, compatible, compatibility, require_path, decoded, encoded, transform_all, read,
  interpret,
}
use automated_trading_bot.Domain.Versioning.Paths.{version_eq_refl}

pub bytes_eq-true : (a b : Bytes) → bytes_eq a b ≡ true → a ≡ b
bytes_eq-true [] [] h = refl
bytes_eq-true [] (c ∷ cs) h = cc
bytes_eq-true (b ∷ bs) [] h = cc
bytes_eq-true (b ∷ bs) (c ∷ cs) h = grind (arith, bytes_eq-true bs cs)

pub bytes_eq_refl : (a : Bytes) → bytes_eq a a ≡ true
bytes_eq_refl [] = refl
bytes_eq_refl (b ∷ bs) = ground (arith, bytes_eq_refl bs)

encoded-some : (o : Option Bytes) {b : Bytes} → encoded o ≡ ok b → o ≡ some b
unfolding encoded
encoded-some none h = cc
encoded-some (some b) h = ap some (ok_injective h)

module _ {Value : Type 0} where
  -- What `interpret` has done where it succeeds.
  record Interpreted (registry : VersionRegistry Value) (source target : ContractVersion)
      (bytes : Bytes) (i : Interpretation Value) : Type 0 where
    codec : Codec Value
    routes : List (UpcastDefinition Value)
    known : codec_for registry source ≡ ok codec
    known_target : (c : Codec Value) × (codec_for registry target ≡ ok c)
    forward : is_backward source target ≡ false
    reached : path registry source target ≡ found routes
    result : read codec routes source bytes target ≡ ok i

  decoded-ok : (r : Result DecodeError Value) {v : Value} → decoded r ≡ ok v → r ≡ ok v
  unfolding decoded
  decoded-ok (ok v) h = ap ok (ok_injective h)
  decoded-ok (err rejected) h = cc
  decoded-ok (err raised) h = cc

  require_path-found :
      (w : Walk Value) {routes : List (UpcastDefinition Value)}
      → require_path w ≡ ok routes
      → w ≡ found routes
  unfolding require_path
  require_path-found (found routes) h = ap found (ok_injective h)
  require_path-found no_route h = cc
  require_path-found out_of_fuel h = cc

  interpret-Interpreted :
      (registry : VersionRegistry Value) (source target : ContractVersion) (bytes : Bytes)
      {i : Interpretation Value}
      → interpret registry source bytes target ≡ ok i
      → Interpreted registry source target bytes i
  unfolding interpret
  interpret-Interpreted registry source target bytes h =
      let (c, e, h1) = >>=-eq-ok (codec_for registry source) _ h in
      let (c', e', h2) = >>=-eq-ok (codec_for registry target) _ h1 in
      let (g, h3) = >>-eq-ok (raise_if (is_backward source target) missing_upcast_path) _ h2 in
      let (routes, p, last) = >>=-eq-ok (require_path (path registry source target)) _ h3 in
      record {
        codec = c;
        routes = routes;
        known = e;
        known_target = (c', e');
        forward = raise_if-eq-ok (is_backward source target) missing_upcast_path g;
        reached = require_path-found (path registry source target) p;
        result = last;
      }

  -- An interpretation that succeeds is between versions that `compatibility` calls supported:
  -- natively where they are the same version, and by upcasts where they are not.
  pub interpret-compatibility :
      (registry : VersionRegistry Value) (source target : ContractVersion) (bytes : Bytes)
      {i : Interpretation Value}
      → interpret registry source bytes target ≡ ok i
      → compatibility registry source target
        ≡ ok (if version_eq source target then supported_native else supported_via_approved_upcast)
  unfolding compatibility compatible
  interpret-compatibility registry source target bytes h =
      let d = interpret-Interpreted registry source target bytes h in
      ground (arith, d.known, d.known_target.1, d.forward, d.reached)

  -- Where `compatibility` says unsupported, `interpret` refuses every representation for want of an
  -- upcast path.
  pub unsupported_refused :
      (registry : VersionRegistry Value) (source target : ContractVersion) (bytes : Bytes)
      → compatibility registry source target ≡ ok unsupported
      → interpret registry source bytes target ≡ err missing_upcast_path
  unfolding compatibility compatible interpret require_path
  unsupported_refused registry source target bytes h = ground arith

  -- What a successful read has found: the canonical representation of a value.
  pub record IsReading (c : Codec Value) (routes : List (UpcastDefinition Value))
      (source target : ContractVersion) (bytes : Bytes) (i : Interpretation Value) : Type 0 where
    pub historical : Value
    pub decodes : c.decode bytes ≡ ok historical
    pub encodes : c.encode historical ≡ some bytes
    pub upcasts : transform_all routes historical ≡ ok i.value
    pub original : i.original ≡ source
    pub goal : i.target ≡ target
    pub bytes_kept : i.original_bytes ≡ bytes
    pub steps : i.transformation_path ≡ map (λ r. r.target) routes

  read-IsReading :
      (c : Codec Value) (routes : List (UpcastDefinition Value)) (source target : ContractVersion)
      (bytes : Bytes) {i : Interpretation Value}
      → read c routes source bytes target ≡ ok i
      → IsReading c routes source target bytes i
  unfolding read
  read-IsReading c routes source target bytes h =
      let (v, e, h1) = >>=-eq-ok (decoded (c.decode bytes)) _ h in
      let (canonical, e', h2) = >>=-eq-ok (encoded (c.encode v)) _ h1 in
      let (g, h3) =
        >>-eq-ok (raise_if (not (bytes_eq canonical bytes)) malformed_representation) _ h2 in
      let (w, u, last) = >>=-eq-ok (transform_all routes v) _ h3 in
      let same = bytes_eq-true canonical bytes (ground (arith, g)) in
      record {
        historical = v;
        decodes = decoded-ok (c.decode bytes) e;
        encodes = encoded-some (c.encode v) (e' ∙ ap ok same);
        upcasts = u ∙ ap ok (ap (λ i. i.value) (ok_injective last));
        original = sym (ap (λ i. i.original) (ok_injective last));
        goal = sym (ap (λ i. i.target) (ok_injective last));
        bytes_kept = sym (ap (λ i. i.original_bytes) (ok_injective last));
        steps = sym (ap (λ i. i.transformation_path) (ok_injective last));
      }

  -- A successful interpretation has read the canonical bytes of a value: they decode to it by the
  -- codec of the source's version, and it encodes to them; the result is that value carried along
  -- the approved path to the target, with the representation and both versions kept.
  pub interpret-IsReading :
      (registry : VersionRegistry Value) (source target : ContractVersion) (bytes : Bytes)
      {i : Interpretation Value}
      → interpret registry source bytes target ≡ ok i
      → (c : Codec Value) × (routes : List (UpcastDefinition Value)) × (codec_for registry source
          ≡ ok c)
        × (path registry source target ≡ found routes)
        × IsReading c routes source target bytes i
  interpret-IsReading registry source target bytes h =
      let d = interpret-Interpreted registry source target bytes h in
      (
        d.codec,
        d.routes,
        d.known,
        d.reached,
        read-IsReading d.codec d.routes source target bytes d.result,
      )

  -- A value that its own version's codec encodes, and decodes again from those bytes, is read back
  -- from them as it was, with no upcast.
  pub native_round_trip :
      (registry : VersionRegistry Value) (v : ContractVersion) (c : Codec Value) (x : Value)
      (bytes : Bytes)
      → codec_for registry v ≡ ok c
      → c.encode x ≡ some bytes
      → c.decode bytes ≡ ok x
      → interpret registry v bytes v
        ≡ ok (record {
          original = v;
          target = v;
          original_bytes = bytes;
          value = x;
          transformation_path = [];
        })
  unfolding interpret read transform_all require_path decoded encoded path walk
  native_round_trip registry v c x bytes k e d =
      ground (arith, version_eq_refl v, eq_iff v.family v.family, bytes_eq_refl bytes)
