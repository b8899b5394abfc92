-- ===== src/Http/Fields/Counts.antt =====
-- The count and the flags of a field table are what its entries say.
use native.Mathlib.Nat.{mod-eq_of_lt}
use medici.Prelude.{
  ℕ, suc, ◌+◌, ◌%◌, ◌^◌, ◌<◌, ◌≡◌, refl, ap, sym, subst, ◌∙◌, inl, inr, Bool, true, false, ◌||◌,
  if◌then◌else◌, List, [], ◌∷◌, arith, Bool-cases,
}
use medici.Shm.Ring.Modulo.{next-add-mod}
use medici.Http.{same_text}
use medici.Http.Url.{FieldValueEntry, FieldValueMap}
use medici.Http.Names.{same_text_path}
use medici.Http.Fields.{HttpFields, count_fields, update_field_count_and_array_flags}

-- The number of names other than the one before it, whether one is the same as the one before it, and
-- whether an entry is a file path.
unfoldable pub distinct : List ℕ → FieldValueMap → ℕ
distinct last [] = 0
distinct last ((n, e) ∷ m) = (if same_text n last then 0 else 1) + distinct n m

unfoldable pub repeats : List ℕ → FieldValueMap → Bool
repeats last [] = false
repeats last ((n, e) ∷ m) = same_text n last || repeats n m

unfoldable pub has_files : FieldValueMap → Bool
has_files [] = false
has_files ((n, e) ∷ m) = e.is_file_path || has_files m

pub record Counted (h : HttpFields) : Type 0 where
  pub count : h.field_count ≡ distinct [] h.field_value_map % 2 ^ 32
  pub arrays : h.has_array_fields ≡ repeats [] h.field_value_map
  pub files : h.has_file_path_fields ≡ has_files h.field_value_map

-- What the loop leaves.
record Loop (last : List ℕ) (m : FieldValueMap) (h r : HttpFields) : Type 0 where
  pub count : r.field_count ≡ (h.field_count + distinct last m) % 2 ^ 32
  pub arrays : r.has_array_fields ≡ (repeats last m || h.has_array_fields)
  pub files : r.has_file_path_fields ≡ (has_files m || h.has_file_path_fields)
  pub same_map : r.field_value_map ≡ h.field_value_map

count_same :
    (last n : List ℕ) (e : FieldValueEntry) (m : FieldValueMap) (h : HttpFields)
    → same_text n last ≡ true
    → count_fields last ((n, e) ∷ m) h
      ≡ count_fields last m (record h {
        has_file_path_fields = e.is_file_path || h.has_file_path_fields;
        has_array_fields = true;
      })
unfolding count_fields
count_same last n e m h t = rw (count_fields, t)

count_other :
    (last n : List ℕ) (e : FieldValueEntry) (m : FieldValueMap) (h : HttpFields)
    → same_text n last ≡ false
    → count_fields last ((n, e) ∷ m) h
      ≡ count_fields n m (record h {
        has_file_path_fields = e.is_file_path || h.has_file_path_fields;
        field_count = (h.field_count + 1) % 2 ^ 32;
      })
unfolding count_fields
count_other last n e m h t = rw (count_fields, t)

count_fields-Loop :
    (last : List ℕ) (m : FieldValueMap) (h : HttpFields)
    → h.field_count < 2 ^ 32
    → Loop last m h (count_fields last m h)
unfolding count_fields distinct repeats has_files
count_fields-Loop last [] h small = record {
  count = sym (ap (λ x. x % 2 ^ 32) (omega arith) ∙ mod-eq_of_lt small);
  arrays = refl;
  files = refl;
  same_map = refl;
}
count_fields-Loop last ((n, e) ∷ m) h small = elim (Bool-cases (same_text n last)) [
  | inl same ↦
      let h1 : HttpFields = record h {
        has_file_path_fields = e.is_file_path || h.has_file_path_fields;
        has_array_fields = true;
      } in
      let l = count_fields-Loop last m h1 small in
      let at : distinct last m ≡ (if same_text n last then 0 else 1) + distinct n m =
        ap (λ k. distinct k m) (sym (same_text_path n last same)) ∙ ground (arith, same) in
      subst (Loop last ((n, e) ∷ m) h) (sym (count_same last n e m h same)) (record {
        count = l.count ∙ ap (λ x. (h.field_count + x) % 2 ^ 32) at;
        arrays = ground (arith, l.arrays, same);
        files = ground (arith, l.files);
        same_map = l.same_map;
      })
  | inr other ↦
      let h2 : HttpFields = record h {
        has_file_path_fields = e.is_file_path || h.has_file_path_fields;
        field_count = (h.field_count + 1) % 2 ^ 32;
      } in
      let l = count_fields-Loop n m h2 (omega arith) in
      let one : suc (distinct n m) ≡ (if same_text n last then 0 else 1) + distinct n m =
        ground (arith, other) in
      subst (Loop last ((n, e) ∷ m) h) (sym (count_other last n e m h other)) (record {
        count =
            l.count
            ∙ next-add-mod (2 ^ 32) h.field_count (distinct n m)
            ∙ ap (λ x. (h.field_count + x) % 2 ^ 32) one;
        arrays = ground (arith, l.arrays, other);
        files = ground (arith, l.files);
        same_map = l.same_map;
      })
]

or_false : (b : Bool) → (b || false) ≡ b
or_false true = refl
or_false false = refl

-- Counting the fields anew gives a table whose count and flags are right, where an empty name that comes
-- first counts as one that repeats.
pub update-Counted : (h : HttpFields) → Counted (update_field_count_and_array_flags h)
unfolding update_field_count_and_array_flags
update-Counted h =
    let h0 : HttpFields = record h {
      field_count = 0;
      has_array_fields = false;
      has_file_path_fields = false;
    } in
    let l = count_fields-Loop [] h.field_value_map h0 (omega arith) in
    let none_yet : 0 + distinct [] h.field_value_map ≡ distinct [] h.field_value_map =
      omega arith in
    record {
      count =
          l.count
          ∙ ap (λ x. x % 2 ^ 32) none_yet
          ∙ ap (λ m. distinct [] m % 2 ^ 32) (sym l.same_map);
      arrays =
          l.arrays ∙ or_false (repeats [] h.field_value_map) ∙ ap (repeats []) (sym l.same_map);
      files = l.files ∙ or_false (has_files h.field_value_map) ∙ ap has_files (sym l.same_map);
    }
