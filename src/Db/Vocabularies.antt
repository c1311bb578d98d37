-- ===== src/Db/Vocabularies.antt =====
-- The vocabularies of db/gpca_db/enums.py that no table uses yet, and the PostgreSQL type that
-- `_pg_enum` builds of a vocabulary: its name, and the values of its members in their order.
pub mod Laws
use gpca_v.Prelude.{String, Option, none, some, List, [], ◌∷◌, if◌then◌else◌}
use gpca_v.Db.Enums.{
  UserRole, viewer, member, admin, UserStatus, suspended, AuthTokenPurpose, email_verify,
  password_reset, role_value,
}
use package.text.Mathlib.Text.{◌==◌ as str_eq}

pub data ApplicationStatus : Type 0 where
  draft submitted ready_for_review approved rejected withdrawn : ApplicationStatus

pub data EndorsementStatus : Type 0 where
  pending accepted declined canceled : EndorsementStatus

pub data PublicationStatus : Type 0 where
  draft published : PublicationStatus

pub data MediaStatus : Type 0 where
  pending ready failed : MediaStatus

pub data PaymentPurpose : Type 0 where
  membership_application merch_order : PaymentPurpose

pub data PaymentStatus : Type 0 where
  requires_payment processing succeeded failed canceled refunded partially_refunded : PaymentStatus

pub data OrderStatus : Type 0 where
  pending_payment paid fulfilled canceled refunded partially_refunded : OrderStatus

pub data CartStatus : Type 0 where
  active converted abandoned : CartStatus

pub data ContentBlockType : Type 0 where
  text rich_text image link list : ContentBlockType

-- A StrEnum with the PostgreSQL type of its columns: `values_callable` gives the members' values.
pub record PgEnum (A : Type 0) : Type 0 where
  pub name : String
  pub members : List A
  pub value : A → String

-- the labels of the type
abbrev pub labels_of : {A : Type 0} → (A → String) → List A → List String
labels_of value [] = []
labels_of value (m ∷ ms) = value m ∷ labels_of value ms

abbrev pub labels : {A : Type 0} → PgEnum A → List String
labels e = labels_of e.value e.members

abbrev pub member_with : {A : Type 0} → (A → String) → String → List A → Option A
member_with value s [] = none
member_with value s (m ∷ ms) = if str_eq (value m) s then some m else member_with value s ms

-- the member that a stored label is loaded as
abbrev pub load : {A : Type 0} → PgEnum A → String → Option A
load e s = member_with e.value s e.members

abbrev pub user_role_enum : PgEnum UserRole
user_role_enum = record {
  name = "user_role";
  members = viewer ∷ member ∷ admin ∷ [];
  value = role_value;
}

abbrev pub status_value : UserStatus → String
status_value UserStatus.active = "active"
status_value suspended = "suspended"

abbrev pub user_status_enum : PgEnum UserStatus
user_status_enum = record {
  name = "user_status";
  members = UserStatus.active ∷ suspended ∷ [];
  value = status_value;
}

abbrev pub purpose_value : AuthTokenPurpose → String
purpose_value email_verify = "email_verify"
purpose_value password_reset = "password_reset"

abbrev pub auth_token_purpose_enum : PgEnum AuthTokenPurpose
auth_token_purpose_enum = record {
  name = "auth_token_purpose";
  members = email_verify ∷ password_reset ∷ [];
  value = purpose_value;
}

abbrev pub application_status_value : ApplicationStatus → String
application_status_value ApplicationStatus.draft = "draft"
application_status_value ApplicationStatus.submitted = "submitted"
application_status_value ApplicationStatus.ready_for_review = "ready_for_review"
application_status_value ApplicationStatus.approved = "approved"
application_status_value ApplicationStatus.rejected = "rejected"
application_status_value ApplicationStatus.withdrawn = "withdrawn"

abbrev pub application_status_enum : PgEnum ApplicationStatus
application_status_enum = record {
  name = "application_status";
  members =
      ApplicationStatus.draft ∷ ApplicationStatus.submitted ∷ ApplicationStatus.ready_for_review
      ∷ ApplicationStatus.approved ∷ ApplicationStatus.rejected ∷ ApplicationStatus.withdrawn ∷ [];
  value = application_status_value;
}

abbrev pub endorsement_status_value : EndorsementStatus → String
endorsement_status_value EndorsementStatus.pending = "pending"
endorsement_status_value EndorsementStatus.accepted = "accepted"
endorsement_status_value EndorsementStatus.declined = "declined"
endorsement_status_value EndorsementStatus.canceled = "canceled"

abbrev pub endorsement_status_enum : PgEnum EndorsementStatus
endorsement_status_enum = record {
  name = "endorsement_status";
  members =
      EndorsementStatus.pending ∷ EndorsementStatus.accepted ∷ EndorsementStatus.declined
      ∷ EndorsementStatus.canceled ∷ [];
  value = endorsement_status_value;
}

abbrev pub publication_status_value : PublicationStatus → String
publication_status_value PublicationStatus.draft = "draft"
publication_status_value PublicationStatus.published = "published"

abbrev pub publication_status_enum : PgEnum PublicationStatus
publication_status_enum = record {
  name = "publication_status";
  members = PublicationStatus.draft ∷ PublicationStatus.published ∷ [];
  value = publication_status_value;
}

abbrev pub media_status_value : MediaStatus → String
media_status_value MediaStatus.pending = "pending"
media_status_value MediaStatus.ready = "ready"
media_status_value MediaStatus.failed = "failed"

abbrev pub media_status_enum : PgEnum MediaStatus
media_status_enum = record {
  name = "media_status";
  members = MediaStatus.pending ∷ MediaStatus.ready ∷ MediaStatus.failed ∷ [];
  value = media_status_value;
}

abbrev pub payment_purpose_value : PaymentPurpose → String
payment_purpose_value PaymentPurpose.membership_application = "membership_application"
payment_purpose_value PaymentPurpose.merch_order = "merch_order"

abbrev pub payment_purpose_enum : PgEnum PaymentPurpose
payment_purpose_enum = record {
  name = "payment_purpose";
  members = PaymentPurpose.membership_application ∷ PaymentPurpose.merch_order ∷ [];
  value = payment_purpose_value;
}

abbrev pub payment_status_value : PaymentStatus → String
payment_status_value PaymentStatus.requires_payment = "requires_payment"
payment_status_value PaymentStatus.processing = "processing"
payment_status_value PaymentStatus.succeeded = "succeeded"
payment_status_value PaymentStatus.failed = "failed"
payment_status_value PaymentStatus.canceled = "canceled"
payment_status_value PaymentStatus.refunded = "refunded"
payment_status_value PaymentStatus.partially_refunded = "partially_refunded"

abbrev pub payment_status_enum : PgEnum PaymentStatus
payment_status_enum = record {
  name = "payment_status";
  members =
      PaymentStatus.requires_payment ∷ PaymentStatus.processing ∷ PaymentStatus.succeeded
      ∷ PaymentStatus.failed ∷ PaymentStatus.canceled ∷ PaymentStatus.refunded
      ∷ PaymentStatus.partially_refunded ∷ [];
  value = payment_status_value;
}

abbrev pub order_status_value : OrderStatus → String
order_status_value OrderStatus.pending_payment = "pending_payment"
order_status_value OrderStatus.paid = "paid"
order_status_value OrderStatus.fulfilled = "fulfilled"
order_status_value OrderStatus.canceled = "canceled"
order_status_value OrderStatus.refunded = "refunded"
order_status_value OrderStatus.partially_refunded = "partially_refunded"

abbrev pub order_status_enum : PgEnum OrderStatus
order_status_enum = record {
  name = "order_status";
  members =
      OrderStatus.pending_payment ∷ OrderStatus.paid ∷ OrderStatus.fulfilled ∷ OrderStatus.canceled
      ∷ OrderStatus.refunded ∷ OrderStatus.partially_refunded ∷ [];
  value = order_status_value;
}

abbrev pub cart_status_value : CartStatus → String
cart_status_value CartStatus.active = "active"
cart_status_value CartStatus.converted = "converted"
cart_status_value CartStatus.abandoned = "abandoned"

abbrev pub cart_status_enum : PgEnum CartStatus
cart_status_enum = record {
  name = "cart_status";
  members = CartStatus.active ∷ CartStatus.converted ∷ CartStatus.abandoned ∷ [];
  value = cart_status_value;
}

abbrev pub content_block_type_value : ContentBlockType → String
content_block_type_value ContentBlockType.text = "text"
content_block_type_value ContentBlockType.rich_text = "rich_text"
content_block_type_value ContentBlockType.image = "image"
content_block_type_value ContentBlockType.link = "link"
content_block_type_value ContentBlockType.list = "list"

abbrev pub content_block_type_enum : PgEnum ContentBlockType
content_block_type_enum = record {
  name = "content_block_type";
  members =
      ContentBlockType.text ∷ ContentBlockType.rich_text ∷ ContentBlockType.image
      ∷ ContentBlockType.link ∷ ContentBlockType.list ∷ [];
  value = content_block_type_value;
}
