-- ===== src/Domain/Validation.antt =====
-- domain/types.rs: the `#[validate(…)]` attributes of the request types. `validator` counts
-- characters in a text and elements in a list, checks an optional field only where it is present,
-- and reports all the fields that fail.
use Prim.Native.String.{count}
use testable_rust_architectu.Base.{
  ℕ, ◌≤◌, String, ◌≡◌, refl, ◌↔◌, Bool, true, false, ◌&&◌, Option, none, some, List, [], ◌∷◌, ◌++◌,
  arith, leb, leb_iff, length, if◌then◌else◌,
}
use testable_rust_architectu.Base.Effects.{Result, ok, err}
use testable_rust_architectu.Domain.Items.{CreateItemRequest, ItemMetadataRequest}

-- A field that fails, with its message if the attribute gives one.
pub record FieldError : Type 0 where
  pub field : String
  pub message : Option String

check : Bool → String → Option String → List FieldError
check b f m = if b then [] else record { field = f; message = m } ∷ []

abbrev within : Option String → ℕ → Bool
within none n = true
within (some s) n = leb (count s) n

validate_metadata : Option ItemMetadataRequest → List FieldError
unfolding check
validate_metadata none = []
validate_metadata (some m) =
    check (within m.author 255) "metadata.author" none
    ++ (check (within m.version 50) "metadata.version" none
        ++ check (leb (length m.tags) 20) "metadata.tags" none)

field_errors : CreateItemRequest → List FieldError
unfolding check validate_metadata
field_errors r =
    check (leb 1 (count r.name) && leb (count r.name) 255) "name"
      (some "Name must be between 1 and 255 characters")
    ++ (check (within r.description 10000) "description"
          (some "Description must not exceed 10000 characters")
        ++ (check (leb 1 (count r.content) && leb (count r.content) 1048576) "content"
              (some "Content must be between 1 and 1048576 characters")
            ++ validate_metadata r.metadata))

abbrev outcome : List FieldError → Result (List FieldError) (Unit {0})
outcome [] = ok tt
outcome (e ∷ es) = err (e ∷ es)

-- `CreateItemRequest::validate`.
unfoldable pub validate : CreateItemRequest → Result (List FieldError) (Unit {0})
unfolding field_errors
validate r = outcome (field_errors r)

-- The limits that the documentation of the fields states.
abbrev pub HasAtMost : ℕ → Option String → Type 0
HasAtMost n none = Unit
HasAtMost n (some s) = count s ≤ n

abbrev pub IsBoundedMetadata : Option ItemMetadataRequest → Type 0
IsBoundedMetadata none = Unit
IsBoundedMetadata (some m) = HasAtMost 255 m.author × HasAtMost 50 m.version × (length m.tags ≤ 20)

pub record IsAcceptable (r : CreateItemRequest) : Type 0 where
  pub name_bounds : (1 ≤ count r.name) × (count r.name ≤ 255)
  pub description_bound : HasAtMost 10000 r.description
  pub content_bounds : (1 ≤ count r.content) × (count r.content ≤ 1048576)
  pub metadata_bounds : IsBoundedMetadata r.metadata

check-nil :
    (b : Bool) (f : String) (m : Option String) (rest : List FieldError)
    → (check b f m ++ rest ≡ []) ↔ ((b ≡ true) × (rest ≡ []))
unfolding check
check-nil true f m rest = (λ e. (refl, e), λ e. e.1)
check-nil false f m rest = (λ e. cc, λ e. cc (e.0))

outcome_iff : (es : List FieldError) → (outcome es ≡ ok tt) ↔ (es ≡ [])
outcome_iff [] = (λ e. refl, λ e. refl)
outcome_iff (e ∷ es) = (λ h. cc, λ h. cc)

within_iff : (n : ℕ) (o : Option String) → (within o n ≡ true) ↔ HasAtMost n o
within_iff n none = (λ e. tt, λ h. refl)
within_iff n (some s) = leb_iff (count s) n

between_iff : (lo hi n : ℕ) → ((leb lo n && leb n hi) ≡ true) ↔ ((lo ≤ n) × (n ≤ hi))
between_iff lo hi n = ground arith

validate_metadata_iff :
    (o : Option ItemMetadataRequest) → (validate_metadata o ≡ []) ↔ IsBoundedMetadata o
unfolding validate_metadata
validate_metadata_iff none = (λ e. tt, λ h. refl)
validate_metadata_iff (some m) =
    grind (arith, within_iff 255 m.author, within_iff 50 m.version, leb_iff (length m.tags) 20)

-- A request passes validation exactly when each field is within its documented limits.
pub validate_iff : (r : CreateItemRequest) → (validate r ≡ ok tt) ↔ IsAcceptable r
unfolding validate
validate_iff r =
    let (a, b) = outcome_iff (field_errors r) in
    let (n, n') = between_iff 1 255 (count r.name) in
    let (d, d') = within_iff 10000 r.description in
    let (c, c') = between_iff 1 1048576 (count r.content) in
    let (m, m') = validate_metadata_iff r.metadata in
    (
      λ h.
          let (e, h1) = (check-nil _ "name" _ _).0 (a h) in
          let (e1, h2) = (check-nil _ "description" _ _).0 h1 in
          let (e2, h3) = (check-nil _ "content" _ _).0 h2 in
          record {
            name_bounds = n e;
            description_bound = d e1;
            content_bounds = c e2;
            metadata_bounds = m h3;
          },
      λ h. b (
          (check-nil _ "name" _ _).1 (
            n' h.name_bounds,
            (check-nil _ "description" _ _).1 (
              d' h.description_bound,
              (check-nil _ "content" _ _).1 (c' h.content_bounds, m' h.metadata_bounds),
            ),
          )),
    )
