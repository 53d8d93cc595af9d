-- ===== src/Fields.antt =====
-- The parameters of a request of `astro api` from its fields (cmd/api/fields.go).
pub mod Json
pub mod Scan
pub mod Magic
pub mod Assign
mod Steps
pub mod Lookup
pub mod RoundTrip
pub mod Numbers
mod Tests
pub mod Extends
pub mod Requests
use astro_cli.Fields.Json.{Value, null, text, Entries, no_entries}
use astro_cli.Fields.Scan.{FieldError, parsing, Cut, cut}
use astro_cli.Fields.Magic.{magic_field_value}
use astro_cli.Fields.Assign.{descend}
use astro_cli.Prelude.{
  List, ℕ, ◌∷◌, [], Bool, true, false, Result, ok, err, Option, none, some, ◌>>=◌,
}

unfoldable pub in_parsing : {A : Type 0} → List ℕ → Result FieldError A → Result FieldError A
in_parsing key (err e) = err (parsing key e)
in_parsing key (ok a) = ok a

module _ {W : Type 0} (read_stdin : W → Result FieldError (List ℕ × W))
    (read_file : List ℕ → W → Result FieldError (List ℕ × W)) where
  unfoldable pub value_of : Bool → List ℕ → Option (List ℕ) → W → Result FieldError (Value × W)
  unfolding magic_field_value in_parsing
  value_of is_magic key none w = ok (null, w)
  value_of false key (some s) w = ok (text s, w)
  value_of true key (some s) w = in_parsing key (magic_field_value read_stdin read_file s w)

  unfoldable pub parse_field : Entries → List ℕ → Bool → W → Result FieldError (Entries × W)
  unfolding value_of cut descend
  parse_field params f is_magic w = do
    parts ← cut f
    got ← value_of is_magic parts.key parts.value w
    params' ← descend params [] false parts.keystack got.0
    ok (params', got.1)

  unfoldable pub parse_each : List (List ℕ) → Bool → Entries × W → Result FieldError (Entries × W)
  unfolding parse_field
  parse_each [] is_magic now = ok now
  parse_each (f ∷ fs) is_magic (params, w) =
      parse_field params f is_magic w >>= (λ now. parse_each fs is_magic now)

  -- The raw fields come first.
  unfoldable pub parse_fields : List (List ℕ) → List (List ℕ) → W → Result FieldError (Entries × W)
  unfolding parse_each
  parse_fields magic_fields raw_fields w = do
    now ← parse_each raw_fields false (no_entries, w)
    parse_each magic_fields true now
