-- ===== src/Http/Url/Form.antt =====
-- Parsing encoded fields.
use medici.Prelude.{
  ℕ, ◌+◌, ◌*◌, ◌/◌, ◌%◌, ◌<◌, ◌≡◌, ◌≢◌, refl, ap, sym, ◌∙◌, inl, inr, true, false, if◌then◌else◌,
  List, [], ◌∷◌, ◌++◌, some, ok, arith, append_assoc, append-nil,
}
use medici.Http.Url.{
  is_unreserved, hex_digit, encode_char, encode_string_for_url, before, insert_field,
  FieldValueEntry, FieldValueMap, Scan, amend, entry_of_value, scan_char, is_upper_hex,
  upper_hex_value, is_nil, last_field, scan, parse_url_encoding_to_fields, encode_from,
  encode_fields_to_url,
}
use medici.Http.Url.Text.{AllAscii, encode_cases, unreserved_ne}

scan_step :
    (c : ℕ) (s : List ℕ) (st st' : Scan)
    → c ≢ b'%'
    → scan_char c st ≡ some st'
    → scan (c ∷ s) st ≡ scan s st'
unfolding scan
scan_step c [] st st' h e = rw (scan, e)
scan_step c (d ∷ []) st st' h e = rw (scan, e)
scan_step c (d ∷ x ∷ s) st st' h e = ground (arith, h, e)

scan_escape :
    (d e v : ℕ) (s : List ℕ) (st : Scan)
    → is_upper_hex d ≡ true
    → is_upper_hex e ≡ true
    → 16 * upper_hex_value d + upper_hex_value e ≡ v
    → scan (b'%' ∷ d ∷ e ∷ s) st ≡ scan s (amend st v)
unfolding scan
scan_escape d e v s st h k w = rw (scan, h, k) (ap (λ x. scan s (amend st x)) w)

upper_hex_lem :
    (d : ℕ) → d < 16 → (is_upper_hex (hex_digit d) ≡ true) × (upper_hex_value (hex_digit d) ≡ d)
upper_hex_lem d h = (ground arith, ground arith)

scan_encoded :
    (c : ℕ) (s : List ℕ) (st : Scan) → c < 128 → scan (encode_char c ++ s) st ≡ scan s (amend st c)
unfolding scan_char
scan_encoded c s st h = elim (encode_cases c h) [
  | inl (one, free) ↦
      ap (λ t. scan (t ++ s) st) one
      ∙ scan_step c s st (amend st c) (unreserved_ne c free).0 (free_char free)
  | inr escaped ↦
      let (h1, v1) = upper_hex_lem (c / 16) (omega arith) in
      let (h2, v2) = upper_hex_lem (c % 16) (omega arith) in
      ap (λ t. scan (t ++ s) st) escaped
      ∙ scan_escape (hex_digit (c / 16)) (hex_digit (c % 16)) c s st h1 h2 (omega (arith, v1, v2))
]
  where
    free_char : is_unreserved c ≡ true → scan_char c st ≡ some (amend st c)
    free_char free = rw (scan_char, free)

amend_all : Scan → List ℕ → Scan
amend_all st [] = st
amend_all st (c ∷ s) = amend_all (amend st c) s

-- An encoded text is taken as a whole.
scan_text :
    (s rest : List ℕ) (st : Scan)
    → AllAscii s
    → scan (encode_string_for_url s ++ rest) st ≡ scan rest (amend_all st s)
unfolding encode_string_for_url AllAscii amend_all
scan_text [] rest st a = refl
scan_text (c ∷ s) rest st (h, a) =
    ap (λ t. scan t st) (append_assoc (encode_char c) (encode_string_for_url s) rest)
    ∙ scan_encoded c (encode_string_for_url s ++ rest) st h
    ∙ scan_text s rest (amend st c) a

abbrev in_name : List ℕ → FieldValueMap → Scan
in_name n m = record {
  field_name = n;
  field_value = [];
  scanning_field = true;
  field_value_map = m;
}

abbrev in_value : List ℕ → List ℕ → FieldValueMap → Scan
in_value n v m = record {
  field_name = n;
  field_value = v;
  scanning_field = false;
  field_value_map = m;
}

name_all : (n s : List ℕ) (m : FieldValueMap) → amend_all (in_name n m) s ≡ in_name (n ++ s) m
unfolding amend_all
name_all n [] m = ap (λ t. in_name t m) (sym (append-nil n))
name_all n (c ∷ s) m =
    name_all (n ++ c ∷ []) s m ∙ ap (λ t. in_name t m) (append_assoc n (c ∷ []) s)

value_all :
    (n v s : List ℕ) (m : FieldValueMap) → amend_all (in_value n v m) s ≡ in_value n (v ++ s) m
unfolding amend_all
value_all n v [] m = ap (λ t. in_value n t m) (sym (append-nil v))
value_all n v (c ∷ s) m =
    value_all n (v ++ c ∷ []) s m ∙ ap (λ t. in_value n t m) (append_assoc v (c ∷ []) s)

abbrev field : List ℕ → List ℕ → List ℕ
field n v = encode_string_for_url n ++ b'=' ∷ encode_string_for_url v

-- One field, from its first character on.
scan-field :
    (n v rest : List ℕ) (m : FieldValueMap)
    → AllAscii n
    → AllAscii v
    → scan (field n v ++ rest) (in_name [] m) ≡ scan rest (in_value n v m)
unfolding scan_char is_unreserved
scan-field n v rest m a b =
    ap (λ t. scan t (in_name [] m))
      (append_assoc (encode_string_for_url n) (b'=' ∷ encode_string_for_url v) rest)
    ∙ scan_text n (b'=' ∷ encode_string_for_url v ++ rest) (in_name [] m) a
    ∙ ap (scan (b'=' ∷ encode_string_for_url v ++ rest)) (name_all [] n m)
    ∙ scan_step b'=' (encode_string_for_url v ++ rest) (in_name n m) (in_value n [] m) (omega arith)
        refl
    ∙ scan_text v rest (in_value n [] m) b
    ∙ ap (scan rest) (value_all n [] v m)

-- A field that can be sent and read back: its name and its value are ASCII texts and not empty, and the
-- value is no file path.
pub record Sendable (name : List ℕ) (entry : FieldValueEntry) : Type 0 where
  pub named : is_nil name ≡ false
  pub valued : is_nil entry.value ≡ false
  pub name_ascii : AllAscii name
  pub value_ascii : AllAscii entry.value
  pub text : entry.is_file_path ≡ false

unfoldable pub AllSendable : FieldValueMap → Type 0
AllSendable [] = Unit
AllSendable ((n, e) ∷ m) = Sendable n e × AllSendable m

-- No name of the map is after `name`.
unfoldable pub Below : FieldValueMap → List ℕ → Type 0
Below [] name = Unit
Below ((n, e) ∷ m) name = (before name n ≡ false) × Below m name

-- What a multimap can hold, behind the fields `front`: no name is before an earlier one.
unfoldable pub Sorted : FieldValueMap → FieldValueMap → Type 0
Sorted front [] = Unit
Sorted front ((n, e) ∷ m) = Below front n × Sorted (front ++ (n, e) ∷ []) m

insert_last :
    (name : List ℕ) (entry : FieldValueEntry) (m : FieldValueMap)
    → Below m name
    → insert_field name entry m ≡ m ++ (name, entry) ∷ []
unfolding insert_field Below
insert_last name entry [] b = refl
insert_last name entry ((n, e) ∷ m) (h, b) = rw h (ap (◌∷◌ (n, e)) (insert_last name entry m b))

abbrev more : FieldValueMap → List ℕ
more [] = []
more ((n, e) ∷ m) = b'&' ∷ field n e.value ++ more m

text_entry : (e : FieldValueEntry) → e.is_file_path ≡ false → entry_of_value e.value ≡ e
text_entry e h = ap (λ b. record { value = e.value; is_file_path = b }) (sym h)

-- What the parse makes of the fields behind the first one.
scan-more :
    (front : FieldValueMap) (n : List ℕ) (e : FieldValueEntry) (m : FieldValueMap)
    → Sorted front ((n, e) ∷ m)
    → AllSendable ((n, e) ∷ m)
    → scan (more m) (in_value n e.value front) ≡ front ++ (n, e) ∷ m
unfolding scan scan_char is_unreserved last_field Sorted AllSendable
scan-more front n e [] (b, _) (p, _) =
    rw (last_field, p.named, p.valued)
      (ap (λ x. insert_field n x front) (text_entry e p.text) ∙ insert_last n e front b)
scan-more front n e ((n', e') ∷ m) (b, o) (p, (q, ps)) =
    let front' : FieldValueMap = front ++ (n, e) ∷ [] in
    scan_step b'&' (field n' e'.value ++ more m) (in_value n e.value front)
      (in_name [] (insert_field n (entry_of_value e.value) front)) (omega arith) refl
    ∙ ap (λ x. scan (field n' e'.value ++ more m) (in_name [] x))
        (ap (λ x. insert_field n x front) (text_entry e p.text) ∙ insert_last n e front b)
    ∙ scan-field n' e'.value (more m) front' q.name_ascii q.value_ascii
    ∙ scan-more front' n' e' m o (q, ps)
    ∙ append_assoc front ((n, e) ∷ []) ((n', e') ∷ m)

encode_step :
    (out n : List ℕ) (e : FieldValueEntry) (m : FieldValueMap)
    → e.is_file_path ≡ false
    → encode_from out ((n, e) ∷ m)
      ≡ encode_from ((if is_nil out then out else out ++ b'&' ∷ []) ++ field n e.value) m
unfolding encode_from
encode_step out n e m h =
    rw (encode_from, h)
      (ap (λ t. encode_from t m)
        (append_assoc (if is_nil out then out else out ++ b'&' ∷ []) (encode_string_for_url n)
          (b'=' ∷ encode_string_for_url e.value)))

grown : (out s t : List ℕ) → is_nil out ≡ false → is_nil ((out ++ s) ++ t) ≡ false
grown [] s t h = cc
grown (c ∷ out) s t h = refl

encode_more :
    (out : List ℕ) (m : FieldValueMap)
    → is_nil out ≡ false
    → AllSendable m
    → encode_from out m ≡ ok (out ++ more m)
unfolding encode_from AllSendable
encode_more out [] h a = ap ok (sym (append-nil out))
encode_more out ((n, e) ∷ m) h (p, ps) =
    encode_step out n e m p.text
    ∙ ap (λ t. encode_from (t ++ field n e.value) m) (rw h)
    ∙ encode_more ((out ++ b'&' ∷ []) ++ field n e.value) m
        (grown out (b'&' ∷ []) (field n e.value) h) ps
    ∙ ap ok (
        append_assoc (out ++ b'&' ∷ []) (field n e.value) (more m)
        ∙ append_assoc out (b'&' ∷ []) (field n e.value ++ more m))

field_grown : (n : List ℕ) (e : FieldValueEntry) → Sendable n e → is_nil (field n e.value) ≡ false
field_grown n e p = nonempty (encode_string_for_url n) b'=' (encode_string_for_url e.value)
  where
    nonempty : (s : List ℕ) (c : ℕ) (t : List ℕ) → is_nil (s ++ c ∷ t) ≡ false
    nonempty [] c t = refl
    nonempty (x ∷ s) c t = refl

-- Fields that are encoded for a URL are read back as they were, if there is one, their names and values
-- are ASCII texts and not empty, and they are in the order of a multimap.
pub parse-encode :
    (n : List ℕ) (e : FieldValueEntry) (m : FieldValueMap)
    → AllSendable ((n, e) ∷ m)
    → Sorted [] ((n, e) ∷ m)
    → (url : List ℕ) × (encode_fields_to_url ((n, e) ∷ m) ≡ ok url)
      × (parse_url_encoding_to_fields url ≡ (n, e) ∷ m)
unfolding AllSendable encode_fields_to_url parse_url_encoding_to_fields
parse-encode n e m (p, ps) o = (
  field n e.value ++ more m,
  encode_step [] n e m p.text ∙ encode_more (field n e.value) m (field_grown n e p) ps,
  scan-field n e.value (more m) [] p.name_ascii p.value_ascii ∙ scan-more [] n e m o (p, ps),
)
