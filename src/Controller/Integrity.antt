-- ===== src/Controller/Integrity.antt =====
-- pkg/controller/policyintegrity.go: the check of a policy against its declared digest and its
-- signature. The digest of a spec, base64 and ed25519 are arguments; the details of a verdict are
-- the branch that wrote them.
pub mod Laws
use zen_cleaner.Prelude.{
  ℕ, ◌-◌, ◌/◌, String, Bool, true, false, not, ◌&&◌, Option, none, some, List, ◌==◌, eqb,
  if◌then◌else◌, length, lookup,
}
use zen_cleaner.Api.{ZenCleanerPolicySpec, ZenCleanerPolicy}
use zen_cleaner.Prelude.Text.{Bytes}

pub record Crypto : Type 0 where
  -- `json.Marshal`, sha256 and hex, or an error.
  pub spec_digest : ZenCleanerPolicySpec → Option String
  pub decode_base64 : String → Option Bytes
  -- The key, the message, the signature.
  pub ed25519_verify : Bytes → String → Bytes → Bool

-- The sizes of ed25519's public keys and signatures.
abbrev public_key_size : ℕ
public_key_size = 32

abbrev signature_size : ℕ
signature_size = 64

-- `none` is the nil verifier.
unfoldable pub new_policy_integrity_verifier : Bytes → Option Bytes
new_policy_integrity_verifier key = if eqb (length key) public_key_size then some key else none

pub data VerifyError : Type 0 where
  no_anchor not_base64 wrong_size not_verified : VerifyError

verify_decoded : Crypto → Bytes → String → Option Bytes → Option VerifyError
verify_decoded crypto key digest none = some not_base64
verify_decoded crypto key digest (some sig) =
    if eqb (length sig) signature_size
    then (if crypto.ed25519_verify key digest sig then none else some not_verified)
    else some wrong_size

unfoldable pub verify : Crypto → Option Bytes → String → String → Option VerifyError
unfolding verify_decoded
verify crypto none digest sig = some no_anchor
verify crypto (some key) digest sig = verify_decoded crypto key digest (crypto.decode_base64 sig)

pub data Detail : Type 0 where
  digest_failed no_signature drift_refused verified drift_visible matches_declared : Detail
  signature_failed : VerifyError → Detail

pub record IntegrityVerdict : Type 0 where
  pub digest : String
  pub declared : String
  pub drifted : Bool
  pub refuses : Bool
  pub detail : Detail

abbrev pub ann_declared_digest : String
ann_declared_digest = "zen-cleaner.io/declared-digest"

abbrev pub ann_policy_signature : String
ann_policy_signature = "zen-cleaner.io/policy-signature"

-- An annotation, "" where it is missing.
abbrev pub annotation : String → List (String × String) → String
annotation key m = elim (lookup key m) [ none ↦ "" | some v ↦ v ]

check_signed : Option VerifyError → IntegrityVerdict → IntegrityVerdict
check_signed (some e) v = record v { refuses = true; detail = signature_failed e }
check_signed none v =
    if v.drifted
    then record v { refuses = true; detail = drift_refused }
    else record v { detail = verified }

check_digest : Crypto → Option Bytes → String → IntegrityVerdict → IntegrityVerdict
unfolding check_signed
check_digest crypto none sig v = if v.drifted then record v { detail = drift_visible } else v
check_digest crypto (some key) sig v =
    if sig == ""
    then record v { refuses = true; detail = no_signature }
    else check_signed (verify crypto (some key) v.declared sig) v

check_spec : Crypto → Option Bytes → List (String × String) → Option String → IntegrityVerdict
unfolding check_digest
check_spec crypto key annotations none = record {
  digest = "";
  declared = "";
  drifted = false;
  refuses = true;
  detail = digest_failed;
}
check_spec crypto key annotations (some digest) =
    let declared = annotation ann_declared_digest annotations in
    check_digest crypto key (annotation ann_policy_signature annotations) (record {
      digest = digest;
      declared = declared;
      drifted = not (declared == "") && not (declared == digest);
      refuses = false;
      detail = matches_declared;
    })

unfoldable pub check_integrity : Crypto → Option Bytes → ZenCleanerPolicy → IntegrityVerdict
unfolding check_spec
check_integrity crypto key policy =
    check_spec crypto key policy.annotations (crypto.spec_digest policy.spec)
