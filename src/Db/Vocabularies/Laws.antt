-- ===== src/Db/Vocabularies/Laws.antt =====
-- What is stored of a member is loaded as that member.
use gpca_v.Prelude.{some, ◌≡◌, refl}
use gpca_v.Db.Enums.{UserRole, UserStatus, AuthTokenPurpose}
use gpca_v.Db.Vocabularies.{
  PgEnum, load, user_role_enum, user_status_enum, auth_token_purpose_enum, application_status_enum,
  endorsement_status_enum, publication_status_enum, media_status_enum, payment_purpose_enum,
  payment_status_enum, order_status_enum, cart_status_enum, content_block_type_enum,
  ApplicationStatus, EndorsementStatus, PublicationStatus, MediaStatus, PaymentPurpose,
  PaymentStatus, OrderStatus, CartStatus, ContentBlockType,
}

-- Every member of a vocabulary is loaded from the label that it is stored as.
abbrev pub IsFaithful : {A : Type 0} → PgEnum A → Type 0
IsFaithful {A} e = (m : A) → load e (e.value m) ≡ some m

user_role-IsFaithful : IsFaithful user_role_enum
user_role-IsFaithful UserRole.viewer = refl
user_role-IsFaithful UserRole.member = refl
user_role-IsFaithful UserRole.admin = refl

user_status-IsFaithful : IsFaithful user_status_enum
user_status-IsFaithful UserStatus.active = refl
user_status-IsFaithful UserStatus.suspended = refl

auth_token_purpose-IsFaithful : IsFaithful auth_token_purpose_enum
auth_token_purpose-IsFaithful AuthTokenPurpose.email_verify = refl
auth_token_purpose-IsFaithful AuthTokenPurpose.password_reset = refl

application_status-IsFaithful : IsFaithful application_status_enum
application_status-IsFaithful ApplicationStatus.draft = refl
application_status-IsFaithful ApplicationStatus.submitted = refl
application_status-IsFaithful ApplicationStatus.ready_for_review = refl
application_status-IsFaithful ApplicationStatus.approved = refl
application_status-IsFaithful ApplicationStatus.rejected = refl
application_status-IsFaithful ApplicationStatus.withdrawn = refl

endorsement_status-IsFaithful : IsFaithful endorsement_status_enum
endorsement_status-IsFaithful EndorsementStatus.pending = refl
endorsement_status-IsFaithful EndorsementStatus.accepted = refl
endorsement_status-IsFaithful EndorsementStatus.declined = refl
endorsement_status-IsFaithful EndorsementStatus.canceled = refl

publication_status-IsFaithful : IsFaithful publication_status_enum
publication_status-IsFaithful PublicationStatus.draft = refl
publication_status-IsFaithful PublicationStatus.published = refl

media_status-IsFaithful : IsFaithful media_status_enum
media_status-IsFaithful MediaStatus.pending = refl
media_status-IsFaithful MediaStatus.ready = refl
media_status-IsFaithful MediaStatus.failed = refl

payment_purpose-IsFaithful : IsFaithful payment_purpose_enum
payment_purpose-IsFaithful PaymentPurpose.membership_application = refl
payment_purpose-IsFaithful PaymentPurpose.merch_order = refl

payment_status-IsFaithful : IsFaithful payment_status_enum
payment_status-IsFaithful PaymentStatus.requires_payment = refl
payment_status-IsFaithful PaymentStatus.processing = refl
payment_status-IsFaithful PaymentStatus.succeeded = refl
payment_status-IsFaithful PaymentStatus.failed = refl
payment_status-IsFaithful PaymentStatus.canceled = refl
payment_status-IsFaithful PaymentStatus.refunded = refl
payment_status-IsFaithful PaymentStatus.partially_refunded = refl

order_status-IsFaithful : IsFaithful order_status_enum
order_status-IsFaithful OrderStatus.pending_payment = refl
order_status-IsFaithful OrderStatus.paid = refl
order_status-IsFaithful OrderStatus.fulfilled = refl
order_status-IsFaithful OrderStatus.canceled = refl
order_status-IsFaithful OrderStatus.refunded = refl
order_status-IsFaithful OrderStatus.partially_refunded = refl

cart_status-IsFaithful : IsFaithful cart_status_enum
cart_status-IsFaithful CartStatus.active = refl
cart_status-IsFaithful CartStatus.converted = refl
cart_status-IsFaithful CartStatus.abandoned = refl

content_block_type-IsFaithful : IsFaithful content_block_type_enum
content_block_type-IsFaithful ContentBlockType.text = refl
content_block_type-IsFaithful ContentBlockType.rich_text = refl
content_block_type-IsFaithful ContentBlockType.image = refl
content_block_type-IsFaithful ContentBlockType.link = refl
content_block_type-IsFaithful ContentBlockType.list = refl

-- In each of the twelve vocabularies a member that is stored by its value is loaded as itself.
pub enums_round_trip :
    IsFaithful user_role_enum
    × IsFaithful user_status_enum
    × IsFaithful auth_token_purpose_enum
    × IsFaithful application_status_enum
    × IsFaithful endorsement_status_enum
    × IsFaithful publication_status_enum
    × IsFaithful media_status_enum
    × IsFaithful payment_purpose_enum
    × IsFaithful payment_status_enum
    × IsFaithful order_status_enum
    × IsFaithful cart_status_enum
    × IsFaithful content_block_type_enum
enums_round_trip = (
  user_role-IsFaithful, user_status-IsFaithful, auth_token_purpose-IsFaithful,
  application_status-IsFaithful, endorsement_status-IsFaithful, publication_status-IsFaithful,
  media_status-IsFaithful, payment_purpose-IsFaithful, payment_status-IsFaithful,
  order_status-IsFaithful, cart_status-IsFaithful, content_block_type-IsFaithful,
)
