-- ===== src/Controller/Integrity/Laws.antt =====
-- When the integrity check lets a policy run.
use zen_cleaner.Prelude.{
  String, ◌≡◌, refl, sym, ap, subst, ◌∙◌, ◌≢◌, ◌↔◌, ◌⊎◌, inl, inr, true, false, not, ◌&&◌, Option,
  none, some, List, arith, ◌==◌, eq_iff, Option-cases, length,
}
use zen_cleaner.Prelude.Text.{Bytes}
use zen_cleaner.Api.{ZenCleanerPolicy}
use zen_cleaner.Controller.Integrity.{
  Crypto, verify_decoded, verify, matches_declared, ann_declared_digest, ann_policy_signature,
  annotation, check_signed, check_digest, check_spec, check_integrity,
}

-- A signature that decodes to 64 bytes, and that the key verifies over the declared digest.
abbrev pub IsSigned : Crypto → Bytes → String → String → Type 0
IsSigned crypto key declared text =
    (sig : Bytes) × (crypto.decode_base64 text ≡ some sig)
    × (length sig ≡ 64)
    × (crypto.ed25519_verify key declared sig ≡ true)

some-injective : {A : Type 0} {a b : A} → some a ≡ some b → a ≡ b
some-injective h = cc

verify_decoded_iff :
    (crypto : Crypto) (key : Bytes) (declared text : String) (sig : Bytes)
    → crypto.decode_base64 text ≡ some sig
    → (verify_decoded crypto key declared (some sig) ≡ none) ↔ IsSigned crypto key declared text
unfolding verify_decoded
verify_decoded_iff crypto key declared text sig h = (
  λ e. (sig, h, ground arith, ground arith),
  λ (sig', h', l, v).
      let same = some-injective (sym h ∙ h') in
      subst (λ x. verify_decoded crypto key declared (some x) ≡ none) (sym same) (ground arith),
)

verify_iff :
    (crypto : Crypto) (key : Bytes) (declared text : String)
    → (verify crypto (some key) declared text ≡ none) ↔ IsSigned crypto key declared text
unfolding verify verify_decoded
verify_iff crypto key declared text = elim (Option-cases (crypto.decode_base64 text)) [
  | inl h ↦ ground (arith, h)
  | inr (sig, h) ↦
      let same = ap (λ d. verify_decoded crypto key declared d) h in
      let (to, back) = verify_decoded_iff crypto key declared text sig h in
      (λ e. to (sym same ∙ e), λ w. same ∙ back w)
]

-- The branches after the digest, for any description of what verifies.
check_digest_iff :
    (crypto : Crypto) (key : Bytes) (text digest declared : String) (signed : Type 0)
    → (verify crypto (some key) declared text ≡ none) ↔ signed
    → ((check_digest crypto (some key) text (record {
      digest = digest;
      declared = declared;
      drifted = not (declared == "") && not (declared == digest);
      refuses = false;
      detail = matches_declared;
    })).refuses
        ≡ false)
      ↔ ((text ≢ "") × signed × ((declared ≡ "") ⊎ (declared ≡ digest)))
unfolding check_digest check_signed
check_digest_iff crypto key text digest declared signed w = ground (
  arith,
  w,
  Option-cases (verify crypto (some key) declared text),
  eq_iff text "",
  eq_iff declared "",
  eq_iff declared digest,
)

refused :
    (crypto : Crypto) (key : Option Bytes) (annotations : List (String × String))
    → (check_spec crypto key annotations none).refuses ≡ true
unfolding check_spec
refused crypto key annotations = refl

check_spec-anchored_iff :
    (crypto : Crypto) (key : Bytes) (annotations : List (String × String)) (digest : String)
    → let declared = annotation ann_declared_digest annotations in
      let text = annotation ann_policy_signature annotations in
      ((check_spec crypto (some key) annotations (some digest)).refuses ≡ false)
      ↔ ((text ≢ "") × IsSigned crypto key declared text × ((declared ≡ "") ⊎ (declared ≡ digest)))
unfolding check_spec check_digest check_signed
check_spec-anchored_iff crypto key annotations digest =
    let declared = annotation ann_declared_digest annotations in
    let text = annotation ann_policy_signature annotations in
    check_digest_iff crypto key text digest declared (IsSigned crypto key declared text)
      (verify_iff crypto key declared text)

-- With a trust anchor, the check lets a policy whose spec has a digest run exactly where its signature
-- is not empty and verifies over the declared digest, and the declared digest is empty or the live
-- one. It refuses a policy whose spec has no digest.
pub check_integrity-anchored_iff :
    (crypto : Crypto) (key : Bytes) (policy : ZenCleanerPolicy)
    → let v = check_integrity crypto (some key) policy in
      let declared = annotation ann_declared_digest policy.annotations in
      let text = annotation ann_policy_signature policy.annotations in
      (crypto.spec_digest policy.spec ≡ none → v.refuses ≡ true)
      × ((digest : String)
          → crypto.spec_digest policy.spec ≡ some digest
          → (v.refuses ≡ false) ↔ (
              (text ≢ "")
              × IsSigned crypto key declared text
              × ((declared ≡ "") ⊎ (declared ≡ digest))))
unfolding check_integrity
check_integrity-anchored_iff crypto key policy = (
  λ none_h. simp none_h (refused crypto (some key) policy.annotations),
  λ digest h. simp h (check_spec-anchored_iff crypto key policy.annotations digest),
)

check_spec-unanchored :
    (crypto : Crypto) (annotations : List (String × String)) (digest : String)
    → let v = check_spec crypto none annotations (some digest) in
      let declared = annotation ann_declared_digest annotations in
      (v.refuses ≡ false) × ((v.drifted ≡ true) ↔ ((declared ≢ "") × (declared ≢ digest)))
unfolding check_spec check_digest
check_spec-unanchored crypto annotations digest =
    let declared = annotation ann_declared_digest annotations in
    ground (arith, eq_iff declared "", eq_iff declared digest)

-- Without an anchor, the check refuses only a spec without a digest: a drift is visible, and no more.
-- The drift flag says that the declared digest is not empty and not the live one.
pub check_integrity-unanchored :
    (crypto : Crypto) (policy : ZenCleanerPolicy)
    → let v = check_integrity crypto none policy in
      let declared = annotation ann_declared_digest policy.annotations in
      (crypto.spec_digest policy.spec ≡ none → v.refuses ≡ true)
      × ((digest : String)
          → crypto.spec_digest policy.spec ≡ some digest
          → (v.refuses ≡ false) × ((v.drifted ≡ true) ↔ ((declared ≢ "") × (declared ≢ digest))))
unfolding check_integrity
check_integrity-unanchored crypto policy = (
  λ none_h. simp none_h (refused crypto none policy.annotations),
  λ digest h. simp h (check_spec-unanchored crypto policy.annotations digest),
)
