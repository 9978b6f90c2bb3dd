-- ===== src/Vcard/RoundTrip/Expected.antt =====
-- What is expected of a card that is read back.
use carddav_mcp.Base.{ℕ, ◌≢◌, false, Option, none, some, ◌==◌, map, All}
use carddav_mcp.Base.Str.{Text, codes, first_piece}
use carddav_mcp.Vcard.Escape.{without_cr, semicolon}
use carddav_mcp.Vcard.Contact.{ContactInput, or_empty, nonempty}
use carddav_mcp.Vcard.Parse.{ParsedVcard, without_scheme}

abbrev pub Lacks : ℕ → Text → Type 0
Lacks d = All (λ c. c ≢ d)

-- The value of a property that is read as text.
abbrev pub read_email : Text → Text
read_email e = without_scheme (codes "mailto:") (without_cr e)

abbrev pub read_phone : Text → Text
read_phone t = without_scheme (codes "tel:") (without_cr t)

-- An organisation is read up to its first semicolon.
abbrev pub read_organization : Text → Text
read_organization o = first_piece (λ c. c == semicolon) (without_cr o)

abbrev pub read {ℓ} : {A : Type ℓ} → (Text → A) → Option Text → Option A
read f none = none
read f (some value) = some (f value)

-- What is read back from the card of a contact.
abbrev pub read_back : ContactInput → Text → ParsedVcard
read_back c uid = record {
  uid = some uid;
  full_name = some (without_cr c.full_name);
  given_name = nonempty (some (without_cr (or_empty c.given_name)));
  family_name = nonempty (some (without_cr (or_empty c.family_name)));
  emails = map read_email c.emails;
  phones = map read_phone c.phones;
  organization = read read_organization (nonempty c.organization);
  title = read without_cr (nonempty c.title);
  note = read without_cr (nonempty c.note);
  birthday = none;
  has_photo = false;
}
