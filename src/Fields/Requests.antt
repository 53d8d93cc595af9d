-- ===== src/Fields/Requests.antt =====
-- Whole fields: from their text to the parameters.
use mathlib.Core.Path.{subst}
use astro_cli.Fields.{value_of, parse_field}
use astro_cli.Fields.Json.{object, Value, null, text, array, no_items, Entries, put}
use astro_cli.Fields.Scan.{FieldError, Cut, cut}
use astro_cli.Fields.Assign.{descend, stored, store, move_of}
use astro_cli.Fields.Magic.{magic_field_value, plain_value}
use astro_cli.Fields.Steps.{ok-inj, descend-start, descend-mark_array}
use astro_cli.Fields.Lookup.{IsNamed, Puts, open_at, descend-Puts, descend-open_iff}
use astro_cli.Fields.RoundTrip.{IsPlain, field_of, cut-field_of}
use astro_cli.Fields.Extends.{EntriesExtend, descend-Extends}
use astro_cli.Prelude.{
  Result-cases, inr, inl, err, Bool-cases, ◌⊎◌, arith, ap, ◌∙◌, refl, true, some, sym, codes, ◌≢◌,
  ◌↔◌, bind-ok, ◌>>=◌, ◌∷◌, ok, false, [], Bool, All, Result, List, ℕ, ◌≡◌,
}

module _ {W : Type 0} (read_stdin : W → Result FieldError (List ℕ × W))
    (read_file : List ℕ → W → Result FieldError (List ℕ × W)) where
  -- A raw field is the assignment of its text at its keys.
  parse_field-raw :
      (params : Entries) (k : List ℕ) (keys : List (List ℕ)) (s : List ℕ) (w : W)
      → IsPlain k
      → All IsPlain keys
      → parse_field read_stdin read_file params (field_of k keys s) false w
        ≡ (descend params [] false (k ∷ keys) (text s) >>= (λ params'. ok (params', w)))
  unfolding parse_field value_of
  parse_field-raw params k keys s w hk plain = rw (parse_field, cut-field_of k keys s hk plain) refl

  parse_field-Puts :
      (params : Entries) (k : List ℕ) (keys : List (List ℕ)) (s : List ℕ) (w w' : W)
      (params' : Entries)
      → IsPlain k
      → All IsPlain keys
      → IsNamed k
      → All IsNamed keys
      → parse_field read_stdin read_file params (field_of k keys s) false w ≡ ok (params', w')
      → Puts params k keys (text s) params' × (w' ≡ w)
  parse_field-Puts params k keys s w w' params' hk plain nk named e =
      let (done, e1, e2) =
        bind-ok (descend params [] false (k ∷ keys) (text s)) _
          (sym (parse_field-raw params k keys s w hk plain) ∙ e) in
      (
        subst (Puts params k keys (text s)) (ap (λ (t : Entries × W). t.0) (ok-inj e2))
            (descend-Puts params k keys (text s) nk named e1),
        sym (ap (λ (t : Entries × W). t.1) (ok-inj e2)),
      )

  parse_field-open_iff :
      (params : Entries) (k : List ℕ) (keys : List (List ℕ)) (s : List ℕ) (w : W)
      → IsPlain k
      → All IsPlain keys
      → IsNamed k
      → All IsNamed keys
      → ((now : Entries × W) × (parse_field read_stdin read_file params (field_of k keys s) false w
            ≡ ok now))
        ↔ (open_at (some (object params)) (k ∷ keys) ≡ true)
  parse_field-open_iff params k keys s w hk plain nk named = (
    (λ (now, e).
        let (done, e1, e2) =
          bind-ok (descend params [] false (k ∷ keys) (text s)) _
            (sym (parse_field-raw params k keys s w hk plain) ∙ e) in
        (descend-open_iff params k keys (text s) nk named).0 (done, e1)),
    (λ h.
        let (done, e) = (descend-open_iff params k keys (text s) nk named).1 h in
        (
          (done, w),
          parse_field-raw params k keys s w hk plain
              ∙ ap (λ r. r >>= (λ params'. ok (params', w))) e,
        )),
  )

  -- What a raw field does: it is accepted, or it is an error.
  abbrev pub Assigns :
      Entries → List ℕ → List (List ℕ) → List ℕ → W → Result FieldError (Entries × W) → Type 0
  Assigns params k keys s w result =
      ((open_at (some (object params)) (k ∷ keys) ≡ true)
        × ((params' : Entries) × (result ≡ ok (params', w)) × Puts params k keys (text s) params'))
      ⊎ ((open_at (some (object params)) (k ∷ keys) ≡ false)
          × ((e : FieldError) × (result ≡ err e)))

  -- A raw field k[k1][k2]...=s, with no separator in its keys and none of them empty, whose path is
  -- open, since it leads through maps to a new key, is accepted: s is put at the path, no other key
  -- of any of these maps is changed, and nothing is read. If the path is not open, the field is an
  -- error.
  pub parse_field-Assigns :
      (params : Entries) (k : List ℕ) (keys : List (List ℕ)) (s : List ℕ) (w : W)
      → IsPlain k
      → All IsPlain keys
      → IsNamed k
      → All IsNamed keys
      → Assigns params k keys s w
          (parse_field read_stdin read_file params (field_of k keys s) false w)
  parse_field-Assigns params k keys s w hk plain nk named =
      elim (Bool-cases (open_at (some (object params)) (k ∷ keys))) [
        | inl e ↦ inl (
          e,
          let ((params', w'), h) = (parse_field-open_iff params k keys s w hk plain nk named).1 e in
              let (puts, same) =
                parse_field-Puts params k keys s w w' params' hk plain nk named h in
              (params', h ∙ ap (λ t. ok (params', t)) same, puts),
        )
        | inr e ↦ inr (
          e,
          elim (Result-cases
              (parse_field read_stdin read_file params (field_of k keys s) false w)) [
                | inl failed ↦ failed
                | inr (now, h) ↦
                    (let opened =
                        (parse_field-open_iff params k keys s w hk plain nk named).0 (now, h) in
                      absurd (cc))
              ],
        )
      ]

  -- A field, raw or magic, that is accepted with a value other than null leaves every parameter at
  -- its place, with all that it had: a map only gets keys, and an array items.
  pub parse_field-Extends :
      (params : Entries) (f : List ℕ) (is_magic : Bool) (w : W) (parts : Cut) (got : Value × W)
      (params' : Entries) (w' : W)
      → cut f ≡ ok parts
      → value_of read_stdin read_file is_magic parts.key parts.value w ≡ ok got
      → got.0 ≢ null
      → parse_field read_stdin read_file params f is_magic w ≡ ok (params', w')
      → EntriesExtend params params'
  unfolding parse_field
  parse_field-Extends params f is_magic w parts got params' w' e1 e2 h e =
      let (done, a1, rest) = bind-ok (cut f) _ e in
      let (value, a2, more) =
        bind-ok (value_of read_stdin read_file is_magic done.key done.value w) _ rest in
      let (last, a3, end) = bind-ok (descend params [] false done.keystack value.0) _ more in
      let same : value ≡ got = ok-inj (
        sym (
          subst (λ (d : Cut). value_of read_stdin read_file is_magic d.key d.value w ≡ ok value)
            (ok-inj (sym a1 ∙ e1)) a2)
        ∙ e2) in
      subst (EntriesExtend params) (ap (λ (t : Entries × W). t.0) (ok-inj end)) (
        descend-Extends params [] false done.keystack value.0
          (λ z. h (ap (λ (t : Value × W). t.0) (sym same) ∙ z)) a3)

  -- The magic field k[]=null replaces what k had, whatever it was, by an array without items.
  pub parse_field-null_array :
      (params : Entries) (k : List ℕ) (w : W)
      → IsPlain k
      → IsNamed k
      → parse_field read_stdin read_file params (field_of k ([] ∷ []) (codes "null")) true w
        ≡ ok (put params k (array no_items), w)
  unfolding parse_field value_of magic_field_value plain_value descend store stored move_of
  parse_field-null_array params k w hk nk =
      let is_null : plain_value (codes "null") ≡ null = refl in
      let assigned : descend params [] false (k ∷ [] ∷ []) null
          ≡ ok (put params k (array no_items)) =
        descend-start params [] false k ([] ∷ []) null (ground arith)
        ∙ descend-mark_array params k false [] [] null (ground arith) in
      rw (parse_field, cut-field_of k ([] ∷ []) (codes "null") hk (tt, tt))
        (ap (λ r. r >>= (λ params'. ok (params', w))) assigned)
