-- ===== src/Provider/Schema.antt =====
-- internal/provider: the schemas that the data sources and the ephemeral resources declare, and how
-- terraform-plugin-framework reads a model by them. The descriptions of the attributes are left out.
pub mod Ssh
pub mod Ssm
pub mod AzureBastion
pub mod Kubernetes
pub mod Fit
pub mod Kept
pub mod Written
mod Tests
use terraform_provider_tunne.Base.{
  Bool, true, false, ◌&&◌, ◌≡◌, ◌⊎◌, Option, none, some, List, if◌then◌else◌, ℤ,
}
use terraform_provider_tunne.GoText.{Text, text_eq}
use terraform_provider_tunne.Provider.{Attr}
use terraform_provider_tunne.Provider.Kubernetes.{Collection}

-- The four Booleans that the source sets of an attribute.
pub record Flags : Type 0 where
  pub is_required : Bool
  pub is_optional : Bool
  pub is_computed : Bool
  pub is_sensitive : Bool

abbrev no_flags : Flags
no_flags = record {
  is_required = false;
  is_optional = false;
  is_computed = false;
  is_sensitive = false;
}

abbrev pub required : Flags
required = record no_flags { is_required = true }

abbrev pub optional : Flags
optional = record no_flags { is_optional = true }

abbrev pub computed : Flags
computed = record no_flags { is_computed = true }

abbrev pub optional_computed : Flags
optional_computed = record no_flags { is_optional = true; is_computed = true }

abbrev pub sensitive : Flags → Flags
sensitive f = record f { is_sensitive = true }

-- `map[string]schema.Attribute`: its entries, in the order of the source. The elements of the lists
-- and maps are strings.
infixr 20 ◌&◌
mutual
  pub data AttributeKind : Type 0 where
    string_attribute int64_attribute bool_attribute list_attribute map_attribute : AttributeKind
    single_nested : Attributes → AttributeKind

  pub data Entry : Type 0 where
    attr : Text → AttributeKind → Flags → Entry

  pub data Attributes : Type 0 where
    end : Attributes
    ◌&◌ : Entry → Attributes → Attributes

-- A model's fields under their `tfsdk` names, with their values; a pointer to a struct is the
-- struct's fields, or null.
infixr 20 ◌&=◌
mutual
  pub data Field : Type 0 where
    string_field : Attr Text → Field
    int64_field : Attr ℤ → Field
    bool_field : Attr Bool → Field
    list_field : Collection (List Text) → Field
    map_field : Collection (List (Text × Text)) → Field
    null_struct : Field
    struct_field : Fields → Field

  pub data Named : Type 0 where
    tag : Text → Field → Named

  pub data Fields : Type 0 where
    end_fields : Fields
    ◌&=◌ : Named → Fields → Fields

pub find_attribute : Text → Attributes → Option (AttributeKind × Flags)
unfolding text_eq
find_attribute name end = none
find_attribute name (attr n kind flags & rest) =
    if text_eq n name then some (kind, flags) else find_attribute name rest

pub has_field : Text → Fields → Bool
unfolding text_eq
has_field name end_fields = false
has_field name (tag n f &= rest) = if text_eq n name then true else has_field name rest

-- Every attribute has a field.
pub covers : Fields → Attributes → Bool
unfolding has_field
covers fs end = true
covers fs (attr n kind flags & rest) = has_field n fs && covers fs rest

-- What `Config.Get` and `State.Set` ask of a model: each field has an attribute of its type, and
-- each attribute a field.
mutual
  pub kind_fits : Option (AttributeKind × Flags) → Field → Bool
  kind_fits none f = false
  kind_fits (some (string_attribute, flags)) (string_field a) = true
  kind_fits (some (int64_attribute, flags)) (int64_field a) = true
  kind_fits (some (bool_attribute, flags)) (bool_field a) = true
  kind_fits (some (list_attribute, flags)) (list_field c) = true
  kind_fits (some (map_attribute, flags)) (map_field c) = true
  kind_fits (some (single_nested attrs, flags)) null_struct = true
  kind_fits (some (single_nested attrs, flags)) (struct_field fs) =
      fields_fit attrs fs && covers fs attrs
  kind_fits (some (kind, flags)) f = false

  pub fields_fit : Attributes → Fields → Bool
  fields_fit attrs end_fields = true
  fields_fit attrs (tag n f &= rest) = kind_fits (find_attribute n attrs) f && fields_fit attrs rest

pub fits : Attributes → Fields → Bool
unfolding fields_fit covers find_attribute
fits attrs fs = fields_fit attrs fs && covers fs attrs

computed_at : Option (AttributeKind × Flags) → Bool
computed_at none = false
computed_at (some (kind, flags)) = flags.is_computed

-- `Computed: true` of an attribute.
pub may_compute : Text → Attributes → Bool
unfolding computed_at find_attribute
may_compute name attrs = computed_at (find_attribute name attrs)
