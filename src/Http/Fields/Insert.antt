-- ===== src/Http/Fields/Insert.antt =====
-- Adding fields keeps the count and the flags of a table right.
use native.Mathlib.Nat.{mod-add-mod}
use medici.Prelude.{
  ℕ, ◌+◌, ◌%◌, ◌^◌, ◌≡◌, refl, ap, sym, ◌∙◌, inl, inr, Bool, true, false, ◌||◌, if◌then◌else◌, List,
  [], ◌∷◌, map, arith, Bool-cases,
}
use medici.Http.{same_text}
use medici.Http.Url.{FieldValueEntry, FieldValueMap, before, insert_field}
use medici.Http.Names.{
  same_text_path, same_text_refl, before_antisym, before_asym, before_trans, before_differ,
  before_empty,
}
use medici.Http.Fields.{HttpFields, contains, add_field_value, amend_from, amend_fields}
use medici.Http.Fields.Counts.{distinct, repeats, has_files, Counted}

-- No entry's name is before `name`.
unfoldable pub NoneBefore : List ℕ → FieldValueMap → Type 0
NoneBefore name [] = Unit
NoneBefore name ((n, e) ∷ m) = (before n name ≡ false) × NoneBefore name m

-- The order of a multimap.
unfoldable pub InOrder : FieldValueMap → Type 0
InOrder [] = Unit
InOrder ((n, e) ∷ m) = NoneBefore n m × InOrder m

-- A name that is before the first one is not among the others.
not_contained :
    (name n : List ℕ) (m : FieldValueMap)
    → before name n ≡ true
    → NoneBefore n m
    → contains name m ≡ false
unfolding contains NoneBefore
not_contained name n [] h b = refl
not_contained name n ((x, e) ∷ m) h (b, bs) = elim (Bool-cases (same_text name x)) [
  | inl same ↦
      let clash : true ≡ false = sym h ∙ ap (λ k. before k n) (same_text_path name x same) ∙ b in cc
  | inr other ↦ rw (contains, other) (not_contained name n m h bs)
]

NoneBefore-insert :
    (last name : List ℕ) (e : FieldValueEntry) (m : FieldValueMap)
    → before name last ≡ false
    → NoneBefore last m
    → NoneBefore last (insert_field name e m)
unfolding NoneBefore insert_field
NoneBefore-insert last name e [] h b = (h, b)
NoneBefore-insert last name e ((x, ex) ∷ m) h (b, bs) = elim (Bool-cases (before name x)) [
  | inl first ↦ rw first (h, (b, bs))
  | inr later ↦ rw later (b, NoneBefore-insert last name e m h bs)
]

-- What is behind a name that comes later than `name` comes later, too.
NoneBefore-first :
    (name n : List ℕ) (m : FieldValueMap)
    → before name n ≡ true
    → NoneBefore n m
    → NoneBefore name m
unfolding NoneBefore
NoneBefore-first name n [] h b = tt
NoneBefore-first name n ((x, e) ∷ m) h (b, bs) =
    (before_trans name n x h b, NoneBefore-first name n m h bs)

insert-InOrder :
    (name : List ℕ) (e : FieldValueEntry) (m : FieldValueMap)
    → InOrder m
    → InOrder (insert_field name e m)
unfolding InOrder NoneBefore insert_field
insert-InOrder name e [] o = (tt, tt)
insert-InOrder name e ((n, en) ∷ m) (b, o) = elim (Bool-cases (before name n)) [
  | inl first ↦ rw first ((before_asym name n first, NoneBefore-first name n m first b), (b, o))
  | inr later ↦ rw later (NoneBefore-insert n name e m later b, insert-InOrder name e m o)
]

-- The name before an entry is the entry's, if the name to insert is, and comes no earlier than the entry.
same_next :
    (last name n : List ℕ)
    → before name n ≡ false
    → before n last ≡ false
    → same_text name last ≡ true
    → same_text name n ≡ true
same_next last name n h b same =
    let at : name ≡ last = same_text_path name last same in
    let no_earlier : before n name ≡ false = ap (before n) at ∙ b in
    ap (same_text name) (sym (before_antisym name n h no_earlier)) ∙ same_text_refl name

-- An insertion adds one to the number of names, unless the name is there already.
insert_counts :
    (last name : List ℕ) (e : FieldValueEntry) (m : FieldValueMap)
    → before name last ≡ false
    → NoneBefore last m
    → InOrder m
    → let known = same_text name last || contains name m in
      (distinct last (insert_field name e m) ≡ (if known then 0 else 1) + distinct last m)
      × (repeats last (insert_field name e m) ≡ (known || repeats last m))
      × (has_files (insert_field name e m) ≡ (e.is_file_path || has_files m))
unfolding distinct repeats has_files insert_field contains NoneBefore InOrder
insert_counts last name e [] h b o = (ground arith, ground arith, refl)
insert_counts last name e ((n, en) ∷ m) h (b, bs) (c, o) = elim (Bool-cases (before name n)) [
  | inl first ↦
      let (d1, d2) = before_differ name n first in
      let unknown : contains name m ≡ false = not_contained name n m first c in
      let fresh : same_text n last ≡ false = elim (Bool-cases (same_text n last)) [
        | inl same ↦
            let wrong : true ≡ false =
              sym first ∙ ap (before name) (same_text_path n last same) ∙ h in
            absurd (cc (wrong))
        | inr other ↦ other
      ] in
      rw first
        (ground (arith, d1, d2, unknown, fresh), ground (arith, d1, d2, unknown, fresh), refl)
  | inr later ↦
      let (count, arrays, files) = insert_counts n name e m later c o in
      let next = same_next last name n later b in
      rw later (ground (arith, count, next), ground (arith, arrays, next), ground (arith, files))
]

NoneBefore-empty : (m : FieldValueMap) → NoneBefore [] m
unfolding NoneBefore before
NoneBefore-empty [] = tt
NoneBefore-empty ((n, e) ∷ m) = (refl, NoneBefore-empty m)

-- A table in order, with the right count and flags.
pub record Consistent (h : HttpFields) : Type 0 where
  pub counted : Counted h
  pub in_order : InOrder h.field_value_map

count_step :
    (known : Bool) (k d : ℕ)
    → k ≡ d % 2 ^ 32
    → (if known then k else (k + 1) % 2 ^ 32) ≡ ((if known then 0 else 1) + d) % 2 ^ 32
count_step true k d e = e ∙ ap (λ x. x % 2 ^ 32) (omega arith)
count_step false k d e =
    ap (λ x. (x + 1) % 2 ^ 32) e ∙ mod-add-mod d (2 ^ 32) 1 ∙ ap (λ x. x % 2 ^ 32) (omega arith)

-- Adding a field whose name is not empty to a consistent table keeps it in order and its count and flags right: the
-- number of names, whether a name has several values, and whether a value is a file path.
pub add-Consistent :
    (h : HttpFields) (name value : List ℕ) (is_file_path : Bool)
    → Consistent h
    → same_text (map h.case_transform name) [] ≡ false
    → Consistent (add_field_value h name value is_file_path)
unfolding add_field_value
add-Consistent h name value is_file_path v named =
    let n = map h.case_transform name in
    let entry : FieldValueEntry = record { value = value; is_file_path = is_file_path } in
    let (count, arrays, files) =
      insert_counts [] n entry h.field_value_map (before_empty n)
        (NoneBefore-empty h.field_value_map) v.in_order in
    let only_contained : (same_text n [] || contains n h.field_value_map)
        ≡ contains n h.field_value_map =
      rw named in
    record {
      counted = record {
        count =
            count_step (contains n h.field_value_map) h.field_count (distinct [] h.field_value_map)
              v.counted.count
            ∙ ap (λ x. x % 2 ^ 32)
                (sym (
                  count
                  ∙ ap (λ b. (if b then 0 else 1) + distinct [] h.field_value_map) only_contained));
        arrays = ground (arith, arrays, named, v.counted.arrays);
        files = ground (arith, files, v.counted.files);
      };
      in_order = insert-InOrder n entry h.field_value_map v.in_order;
    }

-- No name of the table is empty after the transform `f`.
unfoldable pub AllNamed : (ℕ → ℕ) → FieldValueMap → Type 0
AllNamed f [] = Unit
AllNamed f ((n, e) ∷ m) = (same_text (map f n) [] ≡ false) × AllNamed f m

amend_from-Consistent :
    (h : HttpFields) (m : FieldValueMap)
    → Consistent h
    → AllNamed h.case_transform m
    → Consistent (amend_from h m)
unfolding amend_from AllNamed add_field_value
amend_from-Consistent h [] v a = v
amend_from-Consistent h ((n, e) ∷ m) v (named, a) =
    amend_from-Consistent (add_field_value h n e.value e.is_file_path) m
      (add-Consistent h n e.value e.is_file_path v named) a

-- Amending a consistent table by the fields of another one, whose names are not empty, keeps it in order
-- and its count and flags right.
pub amend-Consistent :
    (h other : HttpFields)
    → Consistent h
    → AllNamed h.case_transform other.field_value_map
    → Consistent (amend_fields h other)
unfolding amend_fields
amend-Consistent h other v a = amend_from-Consistent h other.field_value_map v a
