-- ===== src/Fields/Tests.antt =====
-- Fields of requests, on what a user may type.
use astro_cli.Fields.{parse_field, parse_fields}
use astro_cli.Fields.Json.{
  text, integer, object, array, no_items, item, Entries, no_entries, entry, put,
}
use astro_cli.Fields.Scan.{mark_of, FieldError, unexpected_override, requires_value, out_of_reach}
use astro_cli.Fields.Magic.{magic_field_value}
use astro_cli.Fields.RoundTrip.{field_of}
use astro_cli.Fields.Extends.{EntriesExtend}
use astro_cli.Fields.Numbers.{magic_field_value-print, print}
use astro_cli.Fields.Requests.{
  parse_field-Extends, parse_field-null_array, parse_field-Assigns, Assigns,
}
use astro_cli.Prelude.Int.{pos, negsuc}
use astro_cli.Prelude.{refl, false, arith, true, ◌∷◌, err, ok, [], codes, Result, List, ℕ, ◌≡◌}

-- One text on the standard input, which is read once, and no files.
abbrev stdin : List ℕ → Result FieldError (List ℕ × List ℕ)
stdin w = ok (w, [])

abbrev no_file : List ℕ → List ℕ → Result FieldError (List ℕ × List ℕ)
no_file name w = err (out_of_reach name)

abbrev given : Entries
given = entry (codes "a") (object (entry (codes "b") (integer (pos 1)) no_entries)) no_entries

maps :
    parse_fields stdin no_file (codes "a[c]=2" ∷ []) (codes "a[b]=1" ∷ []) []
    ≡ ok (
      entry
          (codes "a")
          (object
            (entry (codes "b") (text (codes "1")) (entry (codes "c") (integer (pos 2)) no_entries)))
          no_entries,
      [],
    )
unfolding parse_fields
maps = refl

arrays :
    parse_fields stdin no_file [] (codes "a[][b]=1" ∷ codes "a[][c]=2" ∷ codes "a[][b]=3" ∷ []) []
    ≡ ok (
      entry
          (codes "a")
          (array (
            item
              (object (
                entry
                  (codes "b")
                  (text (codes "1"))
                  (entry (codes "c") (text (codes "2")) no_entries)))
              (item (object (entry (codes "b") (text (codes "3")) no_entries)) no_items)))
          no_entries,
      [],
    )
unfolding parse_fields
arrays = refl

twice :
    parse_fields stdin no_file [] (codes "a=1" ∷ codes "a=2" ∷ []) []
    ≡ err (unexpected_override (codes "a"))
unfolding parse_fields
twice = refl

no_value :
    parse_fields stdin no_file [] (codes "a[b]" ∷ []) [] ≡ err (requires_value (codes "a[b]"))
unfolding parse_fields
no_value = refl

input_once :
    parse_fields stdin no_file (codes "a=@-" ∷ codes "b=@-" ∷ []) [] (codes "x")
    ≡ ok (entry (codes "a") (text (codes "x")) (entry (codes "b") (text []) no_entries), [])
unfolding parse_fields
input_once = refl

parse_field-Assigns_example :
    Assigns stdin no_file given
      (codes "a")
      (codes "c" ∷ [])
      (codes "x")
      []
      (parse_field stdin no_file given (field_of (codes "a") (codes "c" ∷ []) (codes "x")) false [])
unfolding mark_of
parse_field-Assigns_example =
    parse_field-Assigns stdin no_file given (codes "a") (codes "c" ∷ []) (codes "x") [] (refl, tt)
      ((refl, tt), tt) (ground arith) (ground arith, tt)

parse_field-Extends_example : EntriesExtend given (
    put given (codes "a") (
      object
        (entry (codes "b") (integer (pos 1)) (entry (codes "c") (integer (pos 2)) no_entries))))
unfolding parse_field put
parse_field-Extends_example =
    parse_field-Extends stdin no_file given (codes "a[c]=2") true [] _ _ _ [] refl refl
      (λ e. absurd (cc)) refl

parse_field-null_array_example :
    parse_field stdin no_file given (field_of (codes "a") ([] ∷ []) (codes "null")) true []
    ≡ ok (put given (codes "a") (array no_items), [])
unfolding parse_field
parse_field-null_array_example =
    parse_field-null_array stdin no_file given (codes "a") [] (refl, tt) (ground arith)

magic_field_value-print_example :
    magic_field_value stdin no_file (print (negsuc 41)) [] ≡ ok (integer (negsuc 41), [])
unfolding print
magic_field_value-print_example = magic_field_value-print stdin no_file (negsuc 41) [] (omega arith)
