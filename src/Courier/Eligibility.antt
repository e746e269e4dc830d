-- ===== src/Courier/Eligibility.antt =====
-- What makes a courier eligible.
use wassal.Prelude.{ℕ, ◌≡◌, true, false, some, List, [], ◌∷◌, ◌is◌, if◌then◌else◌}
use wassal.Courier.Policy.{
  DocumentType, document_type_enum, national_id_front, national_id_back, driver_license,
  vehicle_license, profile_photo, Document, DocumentStatus, document_status_enum,
  account_status_enum, active, Reason, account_not_active, courier_not_approved,
  active_motorcycle_required, VerificationStatus, verification_status_enum, EligibilityInput,
  current_document, document_is_expired,
}

-- The current document of the type is approved, and has not expired.
abbrev pub IsValidDocument : List Document → ℕ → DocumentType → Type 0
IsValidDocument documents now type =
    (document : Document) × (current_document type documents ≡ some document)
    × (document.status ≡ DocumentStatus.approved)
    × (document_is_expired document.expires_at now ≡ false)

-- What a courier needs, by the policy.
pub record IsOperational (input : EligibilityInput) (now : ℕ) : Type 0 where
  pub account : input.account_status ≡ active
  pub verification : input.verification_status ≡ VerificationStatus.approved
  pub motorcycle : input.has_active_motorcycle ≡ true
  pub front : IsValidDocument input.documents now national_id_front
  pub back : IsValidDocument input.documents now national_id_back
  pub driver : IsValidDocument input.documents now driver_license
  pub vehicle : IsValidDocument input.documents now vehicle_license
  pub photo : IsValidDocument input.documents now profile_photo

module _ (input : EligibilityInput) (now : ℕ) where
  abbrev account_reasons : List Reason
  account_reasons = if input.account_status is active then [] else account_not_active ∷ []

  abbrev verification_reasons : List Reason
  verification_reasons =
      if input.verification_status is VerificationStatus.approved
      then []
      else courier_not_approved ∷ []

  abbrev motorcycle_reasons : List Reason
  motorcycle_reasons = if input.has_active_motorcycle then [] else active_motorcycle_required ∷ []
