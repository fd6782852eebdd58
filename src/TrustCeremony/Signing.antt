-- ===== src/TrustCeremony/Signing.antt =====
-- The signature check (backend/app/core/signing.py) over the registry of verified publishers
-- (backend/app/core/publishers.py). Base64 and ed25519 are parameters.
use Prim.Native.String.{String, count}
use text.Mathlib.Text.{◌==◌}
use legalise.Base.{Bool, false, not, ◌&&◌, Option, none, some, ltb, if◌then◌else◌, is_none}
use legalise.TrustCeremony.Card.{Manifest}

pub data SignatureStatus : Type 0 where
  verified structure_verified unsigned invalid unknown_publisher : SignatureStatus

pub record SignatureResult : Type 0 where
  pub status : SignatureStatus
  pub publisher : Option String
  pub signed_by : Option String

pub record PublisherInfo : Type 0 where
  pub publisher_id : String
  pub ed25519_public_key : Option String

-- `_VERIFIED.get(publisher_id)`
unfoldable pub publisher_info : String → Option PublisherInfo
publisher_info id =
    if id == "legalise"
    then some (record { publisher_id = "legalise"; ed25519_public_key = none })
    else if id == "example"
    then some (record { publisher_id = "example"; ed25519_public_key = none })
    else none

unfoldable pub is_verified_publisher : String → Bool
unfolding publisher_info
is_verified_publisher id = not (is_none (publisher_info id))

unfoldable pub publisher_signing_key : String → Option String
unfolding publisher_info
publisher_signing_key id = elim (publisher_info id) [
  | none ↦ none
  | some info ↦ info.ed25519_public_key
]

-- `base64.b64decode`, the ed25519 library and the manifest's signing digest.
pub record Crypto : Type 1 where
  pub Bytes : Type 0
  pub Key : Type 0
  pub b64decode : String → Option Bytes
  pub from_public_bytes : Bytes → Option Key
  pub verify : Key → Bytes → Bytes → Bool
  pub manifest_signing_digest : Manifest → Bytes

-- Python's `a or b` on texts that may be missing.
unfoldable pub either : Option String → Option String → Option String
either none b = b
either (some a) b = if a == "" then b else some a

module _ (crypto : Crypto) where
  -- `none` of `b64decode` is a binascii.Error. A signature with other than ASCII characters, for which
  -- it raises a plain ValueError that the code does not catch, is outside the model.
  unfoldable pub verify_ed25519 : Manifest → String → String → Bool
  verify_ed25519 manifest signature_b64 public_key_b64 = elim (crypto.b64decode public_key_b64) [
    | none ↦ false
    | some public_key_bytes ↦ elim (crypto.from_public_bytes public_key_bytes) [
      | none ↦ false
      | some public_key ↦ elim (crypto.b64decode signature_b64) [
        | none ↦ false
        | some signature_bytes ↦
            crypto.verify public_key signature_bytes (crypto.manifest_signing_digest manifest)
      ]
    ]
  ]

  -- The checks once a publisher and a long enough signature are there.
  unfoldable pub check_signature : Manifest → String → String → SignatureResult
  unfolding is_verified_publisher publisher_signing_key verify_ed25519 either
  check_signature manifest publisher signature =
      if not (is_verified_publisher publisher)
      then record {
        status = unknown_publisher;
        publisher = some publisher;
        signed_by = manifest.signed_by;
      }
      else if elim manifest.signed_by [ none ↦ false | some by ↦ not (by == publisher) ]
      then record { status = invalid; publisher = some publisher; signed_by = manifest.signed_by }
      else elim (publisher_signing_key publisher) [
        | none ↦ record {
          status = structure_verified;
          publisher = some publisher;
          signed_by = either manifest.signed_by (some publisher);
        }
        | some public_key_b64 ↦ record {
          status = if verify_ed25519 manifest signature public_key_b64 then verified else invalid;
          publisher = some publisher;
          signed_by = either manifest.signed_by (some publisher);
        }
      ]

  -- The checks on `effective_signature`.
  unfoldable pub check_effective : Option String → Manifest → String → SignatureResult
  unfolding check_signature
  check_effective none manifest publisher = record {
    status = invalid;
    publisher = some publisher;
    signed_by = manifest.signed_by;
  }
  check_effective (some effective_signature) manifest publisher =
      if ltb (count effective_signature) 16
      then record { status = invalid; publisher = some publisher; signed_by = manifest.signed_by }
      else check_signature manifest publisher effective_signature

  -- The cases of the manifest's `publisher`; `none` is a missing one.
  unfoldable pub check_publisher : Option String → Manifest → Option String → SignatureResult
  unfolding check_effective either
  check_publisher none manifest signature = record {
    status = invalid;
    publisher = none;
    signed_by = none;
  }
  check_publisher (some publisher) manifest signature =
      if publisher == ""
      then record { status = invalid; publisher = none; signed_by = none }
      else if is_none signature && is_none (either manifest.signature none)
      then record { status = unsigned; publisher = some publisher; signed_by = manifest.signed_by }
      else check_effective (either signature manifest.signature) manifest publisher

  unfoldable pub verify_manifest_signature : Manifest → Option String → SignatureResult
  unfolding check_publisher
  verify_manifest_signature manifest signature =
      check_publisher manifest.publisher manifest signature
