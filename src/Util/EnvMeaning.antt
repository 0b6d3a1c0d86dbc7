-- ===== src/Util/EnvMeaning.antt =====
-- What the entries of an `--export` list mean: the loop of `resolve_export_spec` of src/util/env.rs on maps
-- from names to values.
use mathlib.Core.Path.{fun_ext}
use slotd.Prelude.{
  ◌≡◌, refl, ap, sym, ◌∙◌, Bool, true, false, List, [], ◌∷◌, Option, none, some, Text, lit,
  if◌then◌else◌, ok, ◌>>◌, bind-ok, ok-injective, Bool-cases, inl, inr,
}
use slotd.Strings.{split_once, eq_ignore_ascii_case, text_eq}
use slotd.Job.{unwrap_or}
use slotd.Util.Env.{
  Env, env_value, upsert_env_pair, validate_env_name, export_entry, export_entries,
}
use slotd.Util.EnvLaws.{env_value-upsert_env_pair}

abbrev pub Values : Type 0
Values = Text → Option Text

no_values : Values
no_values name = none

set_value : Text → Text → Values → Values
set_value name value vars other = if text_eq name other then some value else vars other

abbrev assignment : (own : Values) → Text → Option (Text × Text) → Values → Values
assignment own entry (some (name, value)) vars = set_value name value vars
assignment own entry none vars = set_value entry (unwrap_or [] (own entry)) vars

-- One entry of the list: ALL changes nothing, NONE forgets all, NAME=VALUE sets, and NAME passes on the
-- value that the process has.
unfoldable pub entry_meaning : (own : Values) → Text → Values → Values
unfolding no_values set_value
entry_meaning own entry vars =
    if eq_ignore_ascii_case entry (lit "all")
    then vars
    else if eq_ignore_ascii_case entry (lit "none")
    then no_values
    else assignment own entry (split_once b'=' entry) vars

unfoldable pub list_meaning : (own : Values) → List Text → Values → Values
unfolding entry_meaning
list_meaning own [] vars = vars
list_meaning own (entry ∷ entries) vars = list_meaning own entries (entry_meaning own entry vars)

upsert-meaning :
    (env : Env) (key value : Text)
    → env_value (upsert_env_pair env key value) ≡ set_value key value (env_value env)
unfolding set_value
upsert-meaning env key value = fun_ext (env_value-upsert_env_pair env key value)

none-meaning : env_value [] ≡ no_values
unfolding no_values env_value
none-meaning = refl

assigned :
    (vars env : Env) (entry : Text) (o : Option (Text × Text)) (env' : Env)
    → (elim o [
      | some (key, value) ↦ validate_env_name key >> ok (upsert_env_pair env key value)
      | none ↦
          validate_env_name entry
          >> ok (upsert_env_pair env entry (unwrap_or [] (env_value vars entry)))
    ])
      ≡ ok env'
    → env_value env' ≡ assignment (env_value vars) entry o (env_value env)
assigned vars env entry (some (key, value)) env' h =
    let (u, v, w) =
      bind-ok (validate_env_name key) (λ d. ok (upsert_env_pair env key value)) env' h in
    ap env_value (sym (ok-injective (upsert_env_pair env key value) env' w))
    ∙ upsert-meaning env key value
assigned vars env entry none env' h =
    let value = unwrap_or [] (env_value vars entry) in
    let (u, v, w) =
      bind-ok (validate_env_name entry) (λ d. ok (upsert_env_pair env entry value)) env' h in
    ap env_value (sym (ok-injective (upsert_env_pair env entry value) env' w))
    ∙ upsert-meaning env entry value

entry-refines :
    (vars env : Env) (entry : Text) (env' : Env)
    → export_entry vars env entry ≡ ok env'
    → env_value env' ≡ entry_meaning (env_value vars) entry (env_value env)
unfolding export_entry entry_meaning
entry-refines vars env entry env' h = elim (Bool-cases (eq_ignore_ascii_case entry (lit "all"))) [
  | inl a ↦ rw a (ap env_value (sym (ok-injective env env' (rw a at h))))
  | inr a ↦ elim (Bool-cases (eq_ignore_ascii_case entry (lit "none"))) [
    | inl n ↦ rw (a, n) (ap env_value (sym (ok-injective [] env' (rw (a, n) at h))) ∙ none-meaning)
    | inr n ↦ rw (a, n) (assigned vars env entry (split_once b'=' entry) env' (rw (a, n) at h))
  ]
]

entries-refine :
    (vars env : Env) (entries : List Text) (env' : Env)
    → export_entries vars env entries ≡ ok env'
    → env_value env' ≡ list_meaning (env_value vars) entries (env_value env)
unfolding export_entries list_meaning
entries-refine vars env [] env' h = ap env_value (sym (ok-injective env env' h))
entries-refine vars env (entry ∷ entries) env' h =
    let (next, first, rest) = bind-ok (export_entry vars env entry) _ env' h in
    entries-refine vars next entries env' rest
    ∙ ap (list_meaning (env_value vars) entries) (entry-refines vars env entry next first)

-- What an entry says of one name: nothing, that it is unset, or its value.
pub word : (own : Values) → (name entry : Text) → Option (Option Text)
word own name entry =
    if eq_ignore_ascii_case entry (lit "all")
    then none
    else if eq_ignore_ascii_case entry (lit "none")
    then some none
    else elim (split_once b'=' entry) [
      | some (key, value) ↦ if text_eq key name then some (some value) else none
      | none ↦ if text_eq entry name then some (some (unwrap_or [] (own entry))) else none
    ]

pub or_before : Option (Option Text) → Option (Option Text) → Option (Option Text)
or_before (some later) before = some later
or_before none before = before

-- What the last entry that says anything of the name says of it.
pub last_word : (own : Values) → (name : Text) → List Text → Option (Option Text)
unfolding word or_before
last_word own name [] = none
last_word own name (entry ∷ entries) = or_before (last_word own name entries) (word own name entry)

pub value_after : Option (Option Text) → Option Text → Option Text
value_after none old = old
value_after (some new) old = new

entry-word :
    (own vars : Values) (entry name : Text)
    → entry_meaning own entry vars name ≡ value_after (word own name entry) (vars name)
unfolding entry_meaning no_values set_value word value_after
entry-word own vars entry name = elim (Bool-cases (eq_ignore_ascii_case entry (lit "all"))) [
  | inl a ↦ rw a refl
  | inr a ↦ elim (Bool-cases (eq_ignore_ascii_case entry (lit "none"))) [
    | inl n ↦ rw (a, n) refl
    | inr n ↦ rw (a, n) (named (split_once b'=' entry))
  ]
]
  where
    chosen :
        (b : Bool) (value : Text)
        → (if b then some value else vars name)
          ≡ value_after (if b then some (some value) else none) (vars name)
    chosen true value = refl
    chosen false value = refl

    named :
        (o : Option (Text × Text))
        → assignment own entry o vars name
          ≡ value_after
              (elim o [
                | some (key, value) ↦ if text_eq key name then some (some value) else none
                | none ↦ if text_eq entry name then some (some (unwrap_or [] (own entry))) else none
              ])
              (vars name)
    named (some (key, value)) = chosen (text_eq key name) value
    named none = chosen (text_eq entry name) (unwrap_or [] (own entry))

later_first :
    (later before : Option (Option Text)) (old : Option Text)
    → value_after later (value_after before old) ≡ value_after (or_before later before) old
unfolding value_after or_before
later_first none before old = refl
later_first (some new) before old = refl

list-last_word :
    (own : Values) (entries : List Text) (vars : Values) (name : Text)
    → list_meaning own entries vars name ≡ value_after (last_word own name entries) (vars name)
unfolding list_meaning last_word value_after
list-last_word own [] vars name = refl
list-last_word own (entry ∷ entries) vars name =
    list-last_word own entries (entry_meaning own entry vars) name
    ∙ ap (value_after (last_word own name entries)) (entry-word own vars entry name)
    ∙ later_first (last_word own name entries) (word own name entry) (vars name)

-- When the entries of an `--export` list are accepted, each variable has the value that the last entry
-- which says anything of it gives it: `NONE` that it is unset, NAME=VALUE that value, and NAME the value
-- that the process has, or the empty text; a variable of which no entry says anything has the value it had
-- before.
pub export_entries-last_word :
    (vars env : Env) (entries : List Text) (env' : Env) (name : Text)
    → export_entries vars env entries ≡ ok env'
    → env_value env' name
      ≡ value_after (last_word (env_value vars) name entries) (env_value env name)
export_entries-last_word vars env entries env' name h =
    ap (λ (values : Values). values name) (entries-refine vars env entries env' h)
    ∙ list-last_word (env_value vars) entries (env_value env) name
