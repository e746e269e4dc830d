-- ===== src/Courier/Policy.antt =====
-- Which couriers may work: apps/api/src/courier/courier-policy.ts.
use wassal.Prelude.{
  ℕ, Bool, true, false, ◌&&◌, Option, none, some, List, [], ◌∷◌, ◌++◌, map, ltb, ◌==◌, Enum, ◌is◌,
  filter, find, if◌then◌else◌,
}

pub data DocumentType : Type 0 where
  national_id national_id_front national_id_back driving_license driver_license : DocumentType
  vehicle_license profile_photo : DocumentType

unfoldable pub DocumentType-discrete : Discrete DocumentType
DocumentType-discrete = hlevel

instance abbrev pub document_type_enum : Enum DocumentType
document_type_enum = record { same = DocumentType-discrete }

pub data DocumentStatus : Type 0 where
  pending approved rejected changes_requested expired superseded : DocumentStatus

unfoldable pub DocumentStatus-discrete : Discrete DocumentStatus
DocumentStatus-discrete = hlevel

instance abbrev pub document_status_enum : Enum DocumentStatus
document_status_enum = record { same = DocumentStatus-discrete }

pub data AccountStatus : Type 0 where
  pending active suspended blocked : AccountStatus

unfoldable pub AccountStatus-discrete : Discrete AccountStatus
AccountStatus-discrete = hlevel

instance abbrev pub account_status_enum : Enum AccountStatus
account_status_enum = record { same = AccountStatus-discrete }

pub data VerificationStatus : Type 0 where
  incomplete pending_review changes_requested approved rejected suspended : VerificationStatus

unfoldable pub VerificationStatus-discrete : Discrete VerificationStatus
VerificationStatus-discrete = hlevel

instance abbrev pub verification_status_enum : Enum VerificationStatus
verification_status_enum = record { same = VerificationStatus-discrete }

pub record Document : Type 0 where
  pub type : DocumentType
  pub status : DocumentStatus
  pub expires_at : Option ℕ
  pub is_current : Bool

pub record EligibilityInput : Type 0 where
  pub account_status : AccountStatus
  pub verification_status : VerificationStatus
  pub has_active_motorcycle : Bool
  pub documents : List Document

abbrev pub required_courier_document_types : List DocumentType
required_courier_document_types =
    national_id_front ∷ national_id_back ∷ driver_license ∷ vehicle_license ∷ profile_photo ∷ []

pub data Reason : Type 0 where
  account_not_active courier_not_approved active_motorcycle_required : Reason
  missing unapproved expired_document : DocumentType → Reason

pub record EligibilityResult : Type 0 where
  pub eligible : Bool
  pub reasons : List Reason

-- `documents.find((candidate) => candidate.isCurrent && candidate.type === type)`.
unfoldable pub current_document : DocumentType → List Document → Option Document
current_document type documents =
    find (λ candidate. candidate.is_current && candidate.type is type) documents

-- `document.expiresAt && document.expiresAt < now`.
unfoldable pub document_is_expired : Option ℕ → ℕ → Bool
document_is_expired none now = false
document_is_expired (some expires_at) now = ltb expires_at now

-- What the body of the loop over the required types pushes.
unfoldable pub document_reasons : List Document → ℕ → DocumentType → List Reason
unfolding current_document document_is_expired
document_reasons documents now type = elim (current_document type documents) [
  | none ↦ missing type ∷ []
  | some document ↦
      (if document.status is DocumentStatus.approved then [] else unapproved type ∷ [])
      ++ (if document_is_expired document.expires_at now then expired_document type ∷ [] else [])
]

-- The loop.
unfoldable pub all_document_reasons : List Document → ℕ → List DocumentType → List Reason
unfolding document_reasons
all_document_reasons documents now [] = []
all_document_reasons documents now (type ∷ types) =
    document_reasons documents now type ++ all_document_reasons documents now types

abbrev pub no_reasons : List Reason → Bool
no_reasons [] = true
no_reasons (r ∷ rs) = false

unfoldable pub courier_operational_eligibility : EligibilityInput → ℕ → EligibilityResult
unfolding all_document_reasons
courier_operational_eligibility input now =
    let reasons =
      (if input.account_status is active then [] else account_not_active ∷ [])
      ++ (if input.verification_status is VerificationStatus.approved
          then []
          else courier_not_approved ∷ [])
      ++ (if input.has_active_motorcycle then [] else active_motorcycle_required ∷ [])
      ++ all_document_reasons input.documents now required_courier_document_types in
    record { eligible = no_reasons reasons; reasons = reasons }

pub record CourierZoneMembership : Type 0 where
  pub courier_id : ℕ
  pub service_zone_id : ℕ
  pub active : Bool
  -- `serviceZone.status === 'ACTIVE'`.
  pub zone_is_active : Bool

unfoldable pub eligible_service_zone_ids : List CourierZoneMembership → List ℕ
eligible_service_zone_ids memberships =
    map (λ membership. membership.service_zone_id)
      (filter (λ membership. membership.active && membership.zone_is_active) memberships)

abbrev starts_with : List ℕ → List ℕ → Bool
starts_with [] bytes = true
starts_with (p ∷ ps) [] = false
starts_with (p ∷ ps) (b ∷ bytes) = let rest = starts_with ps bytes in p == b && rest

pub data ContentType : Type 0 where
  image_jpeg image_png application_pdf other_type : ContentType

-- `assertRecognizedDocumentSignature`: whether it returns without the throw.
unfoldable pub has_recognized_signature : List ℕ → ContentType → Bool
has_recognized_signature bytes image_jpeg = starts_with (0xff ∷ 0xd8 ∷ 0xff ∷ []) bytes
has_recognized_signature bytes image_png =
    starts_with (0x89 ∷ 0x50 ∷ 0x4e ∷ 0x47 ∷ 0x0d ∷ 0x0a ∷ 0x1a ∷ 0x0a ∷ []) bytes
has_recognized_signature bytes application_pdf =
    starts_with (b'%' ∷ b'P' ∷ b'D' ∷ b'F' ∷ b'-' ∷ []) bytes
has_recognized_signature bytes other_type = false
