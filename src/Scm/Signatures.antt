-- ===== src/Scm/Signatures.antt =====
-- The signatures of the events.
use Prim.Native.String.{String}
use cxone_flow_buildwork.Prelude.{
  ◌==◌, ◌≡◌, ◌≢◌, refl, ap, Bool-cases, false, true, false, Option, none, some, arith, eq_iff, inl,
  inr,
}
use cxone_flow_buildwork.Prelude.Run.{Result, Result-cases, ok}
use cxone_flow_buildwork.Prelude.Texts.{
  has_code, Lacks, split, split-Lacks, last_part, last_part-Lacks,
}
use cxone_flow_buildwork.Scm.Azure

compared :
    (last shared_secret : String)
    → Lacks 58 last
    → has_code 58 shared_secret ≡ true
    → (last == shared_secret) ≡ false
compared last shared_secret lacks has = elim (Bool-cases (last == shared_secret)) [
  | inl same ↦ absurd (cc (lacks, has, ap (has_code 58) ((eq_iff last shared_secret).0 same)))
  | inr other ↦ other
]

-- A secret with a colon in it fits no event of Azure DevOps: whatever the header holds, and however it
-- is decoded, the signature is not valid.
pub secret_with_colon :
    (decode : String → Result String) (auth : Option String) (shared_secret : String)
    → has_code 58 shared_secret ≡ true
    → Azure.is_signature_valid decode auth shared_secret ≢ ok true
unfolding Azure.is_signature_valid has_code
secret_with_colon decode none shared_secret h = ground arith
secret_with_colon decode (some auth) shared_secret h =
    elim (Result-cases (decode (last_part "" (split 32 auth)))) [
      | inl (decoded, e) ↦
          let lacks = last_part-Lacks 58 "" (split 58 decoded) refl (split-Lacks 58 decoded) in
          ground (arith, compared (last_part "" (split 58 decoded)) shared_secret lacks h)
      | inr (e, failed) ↦ ground arith
    ]
