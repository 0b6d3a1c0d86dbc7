-- ===== src/Format/Names.antt =====
-- A list of fields written as the headers of their columns, read by the parsers of src/format.
use slotd.Prelude.{
  ℕ, ◌≡◌, refl, ap, ◌∙◌, Bool, false, List, [], ◌∷◌, ◌++◌, map, Option, some, Text, lit, All, arith,
  ◌==◌,
}
use slotd.Job.{parsed}
use slotd.Strings.{
  contains_char, join, to_ascii_lowercase, trim, trim_start, is_space, lower, text_case, text_eq,
}
use slotd.Strings.Laws.{split-join}
use slotd.Format.Tokens.{collect_parsed, named_field, parse_names}
use slotd.Format.Sacct
use slotd.Format.Sinfo

contains_char-append :
    (c : ℕ) (s t : Text)
    → contains_char c s ≡ false
    → contains_char c t ≡ false
    → contains_char c (s ++ t) ≡ false
unfolding contains_char
contains_char-append c [] t h k = k
contains_char-append c (d ∷ s) t h k = ground (arith, contains_char-append c s t)

contains_char-join :
    (c sep : ℕ) (ts : List Text)
    → (c == sep) ≡ false
    → All (λ t. contains_char c t ≡ false) ts
    → contains_char c (join (sep ∷ []) ts) ≡ false
unfolding join
contains_char-join c sep [] h k = unfold contains_char in refl
contains_char-join c sep (t ∷ []) h k = k.0
contains_char-join c sep (t ∷ u ∷ ts) h k =
    contains_char-append c (t ++ sep ∷ []) (join (sep ∷ []) (u ∷ ts))
      (contains_char-append c t (sep ∷ []) k.0 (unfold contains_char in ground arith))
      (contains_char-join c sep (u ∷ ts) h k.1)

-- What a header has to be for its field to be found again.
record IsNamed {ℓ} {F : Type ℓ} (header : F → Text) (name_of : Text → Option F) (f : F)
    : Type ℓ where
  found : name_of (to_ascii_lowercase (trim (header f))) ≡ some f
  no_comma : contains_char b',' (header f) ≡ false
  no_percent : contains_char b'%' (header f) ≡ false

module _ {ℓ} {F : Type ℓ} (header : F → Text) (name_of : Text → Option F)
    (named : (f : F) → IsNamed header name_of f) where
  headers_without : (fs : List F) → All (λ t. contains_char b',' t ≡ false) (map header fs)
  headers_without [] = tt
  headers_without (f ∷ fs) = ((named f).no_comma, headers_without fs)

  headers_percent : (fs : List F) → All (λ t. contains_char b'%' t ≡ false) (map header fs)
  headers_percent [] = tt
  headers_percent (f ∷ fs) = ((named f).no_percent, headers_percent fs)

  named_field-header : (problem : Text) (f : F) → named_field name_of problem (header f) ≡ parsed f
  unfolding named_field
  named_field-header problem f = let h = (named f).found in cc

  collect_parsed-headers :
      (problem : Text) (fs : List F)
      → collect_parsed (named_field name_of problem) (map header fs) ≡ parsed fs
  unfolding collect_parsed
  collect_parsed-headers problem [] = refl
  collect_parsed-headers problem (f ∷ fs) =
      rw (named_field-header problem f, collect_parsed-headers problem fs) refl

  parse_names-headers :
      (problem : Text) (f : F) (fs : List F)
      → parse_names name_of problem (join (b',' ∷ []) (map header (f ∷ fs))) ≡ parsed (f ∷ fs)
  unfolding parse_names
  parse_names-headers problem f fs =
      ap (collect_parsed (named_field name_of problem))
        (split-join b',' (header f) (map header fs) (headers_without (f ∷ fs)))
      ∙ collect_parsed-headers problem (f ∷ fs)

  headers-percent : (fs : List F) → contains_char b'%' (join (b',' ∷ []) (map header fs)) ≡ false
  headers-percent fs = contains_char-join b'%' b',' (map header fs) refl (headers_percent fs)

sacct-IsNamed : (f : Sacct.SacctField) → IsNamed Sacct.header (text_case Sacct.field_names) f
unfolding Sacct.header text_case text_eq lit to_ascii_lowercase lower trim trim_start is_space
    contains_char
sacct-IsNamed Sacct.SacctField.job_id = record { found = refl; no_comma = refl; no_percent = refl }
sacct-IsNamed Sacct.SacctField.array_job_id = record {
  found = refl;
  no_comma = refl;
  no_percent = refl;
}
sacct-IsNamed Sacct.SacctField.array_task_id = record {
  found = refl;
  no_comma = refl;
  no_percent = refl;
}
sacct-IsNamed Sacct.SacctField.job_name = record {
  found = refl;
  no_comma = refl;
  no_percent = refl;
}
sacct-IsNamed Sacct.SacctField.partition = record {
  found = refl;
  no_comma = refl;
  no_percent = refl;
}
sacct-IsNamed Sacct.SacctField.user = record { found = refl; no_comma = refl; no_percent = refl }
sacct-IsNamed Sacct.SacctField.state = record { found = refl; no_comma = refl; no_percent = refl }
sacct-IsNamed Sacct.SacctField.reason = record { found = refl; no_comma = refl; no_percent = refl }
sacct-IsNamed Sacct.SacctField.exit_code = record {
  found = refl;
  no_comma = refl;
  no_percent = refl;
}
sacct-IsNamed Sacct.SacctField.elapsed = record { found = refl; no_comma = refl; no_percent = refl }
sacct-IsNamed Sacct.SacctField.alloc_cpus = record {
  found = refl;
  no_comma = refl;
  no_percent = refl;
}
sacct-IsNamed Sacct.SacctField.req_mem = record { found = refl; no_comma = refl; no_percent = refl }
sacct-IsNamed Sacct.SacctField.req_tres = record {
  found = refl;
  no_comma = refl;
  no_percent = refl;
}
sacct-IsNamed Sacct.SacctField.alloc_tres = record {
  found = refl;
  no_comma = refl;
  no_percent = refl;
}
sacct-IsNamed Sacct.SacctField.node_list = record {
  found = refl;
  no_comma = refl;
  no_percent = refl;
}
sacct-IsNamed Sacct.SacctField.submit = record { found = refl; no_comma = refl; no_percent = refl }
sacct-IsNamed Sacct.SacctField.start = record { found = refl; no_comma = refl; no_percent = refl }
sacct-IsNamed Sacct.SacctField.end = record { found = refl; no_comma = refl; no_percent = refl }
sacct-IsNamed Sacct.SacctField.work_dir = record {
  found = refl;
  no_comma = refl;
  no_percent = refl;
}
sacct-IsNamed Sacct.SacctField.batch_flag = record {
  found = refl;
  no_comma = refl;
  no_percent = refl;
}
sacct-IsNamed Sacct.SacctField.max_rss = record { found = refl; no_comma = refl; no_percent = refl }

-- A list of one or more fields of `sacct`, written as the headers of their columns with commas between
-- them, is read by `parse_sacct_fields` as the same list.
pub parse_sacct_fields-header :
    (f : Sacct.SacctField) (fs : List Sacct.SacctField)
    → Sacct.parse_sacct_fields (some (join (lit ",") (map Sacct.header (f ∷ fs)))) ≡ parsed (f ∷ fs)
unfolding Sacct.parse_sacct_fields lit
parse_sacct_fields-header f fs =
    rw (headers-percent Sacct.header (text_case Sacct.field_names) sacct-IsNamed (f ∷ fs)) (
      parse_names-headers Sacct.header (text_case Sacct.field_names) sacct-IsNamed
        (lit "unsupported sacct field: ") f fs)

sinfo-IsNamed : (f : Sinfo.SinfoField) → IsNamed Sinfo.header (text_case Sinfo.field_names) f
unfolding Sinfo.header text_case text_eq lit to_ascii_lowercase lower trim trim_start is_space
    contains_char
sinfo-IsNamed Sinfo.SinfoField.partition = record {
  found = refl;
  no_comma = refl;
  no_percent = refl;
}
sinfo-IsNamed Sinfo.SinfoField.hostnames = record {
  found = refl;
  no_comma = refl;
  no_percent = refl;
}
sinfo-IsNamed Sinfo.SinfoField.state = record { found = refl; no_comma = refl; no_percent = refl }
sinfo-IsNamed Sinfo.SinfoField.gres_used = record {
  found = refl;
  no_comma = refl;
  no_percent = refl;
}
sinfo-IsNamed Sinfo.SinfoField.features = record {
  found = refl;
  no_comma = refl;
  no_percent = refl;
}
sinfo-IsNamed Sinfo.SinfoField.cpus = record { found = refl; no_comma = refl; no_percent = refl }
sinfo-IsNamed Sinfo.SinfoField.cpus_load = record {
  found = refl;
  no_comma = refl;
  no_percent = refl;
}
sinfo-IsNamed Sinfo.SinfoField.memory = record { found = refl; no_comma = refl; no_percent = refl }
sinfo-IsNamed Sinfo.SinfoField.memory_allocated = record {
  found = refl;
  no_comma = refl;
  no_percent = refl;
}
sinfo-IsNamed Sinfo.SinfoField.gpus = record { found = refl; no_comma = refl; no_percent = refl }
sinfo-IsNamed Sinfo.SinfoField.gpus_allocated = record {
  found = refl;
  no_comma = refl;
  no_percent = refl;
}
sinfo-IsNamed Sinfo.SinfoField.running_jobs = record {
  found = refl;
  no_comma = refl;
  no_percent = refl;
}
sinfo-IsNamed Sinfo.SinfoField.pending_jobs = record {
  found = refl;
  no_comma = refl;
  no_percent = refl;
}

-- A list of one or more fields of `sinfo`, written as the headers of their columns with commas between
-- them, is read by `parse_sinfo_fields` as the same list.
pub parse_sinfo_fields-header :
    (f : Sinfo.SinfoField) (fs : List Sinfo.SinfoField) (long : Bool)
    → Sinfo.parse_sinfo_fields (some (join (lit ",") (map Sinfo.header (f ∷ fs)))) long
      ≡ parsed (f ∷ fs)
unfolding Sinfo.parse_sinfo_fields lit
parse_sinfo_fields-header f fs long =
    rw (headers-percent Sinfo.header (text_case Sinfo.field_names) sinfo-IsNamed (f ∷ fs)) (
      parse_names-headers Sinfo.header (text_case Sinfo.field_names) sinfo-IsNamed
        (lit "unsupported sinfo field: ") f fs)
