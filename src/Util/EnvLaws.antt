-- ===== src/Util/EnvLaws.antt =====
-- What the environment of src/util/env.rs holds.
use slotd.Prelude.{
  ◌≡◌, refl, sym, ap, ◌∙◌, Bool, true, false, [], ◌∷◌, Option, some, Text, arith, inl, inr,
  Bool-cases, if◌then◌else◌, insert_by, sort_by, ok, Answer, bind-ok, ok-injective,
}
use slotd.Strings.{text_eq, text_lt}
use slotd.Strings.Laws.{text_eq_refl, text_eq_sound}
use slotd.Strings.Order.{text_lt_irrefl}
use slotd.Util.Env.{
  Env, upsert_env_pair, env_value, dedup_behind, dedup_names, sort_names, resolve_export_env,
  file_env, export_env,
}
use slotd.Util.EnvSort.{
  Pair, not_before, IsSorted, IsAscending, sort_by-IsSorted, dedup_names-IsAscending,
}

env_value-head : (x : Pair) (xs : Env) → env_value (x ∷ xs) x.0 ≡ some x.1
unfolding env_value
env_value-head x xs = rw (text_eq_refl x.0) refl

env_value-other :
    (x : Pair) (xs : Env) (key : Text)
    → text_eq x.0 key ≡ false
    → env_value (x ∷ xs) key ≡ env_value xs key
unfolding env_value
env_value-other x xs key h = rw h refl

env_value-same :
    (x : Pair) (xs : Env) (key : Text) → text_eq x.0 key ≡ true → env_value (x ∷ xs) key ≡ some x.1
unfolding env_value
env_value-same x xs key h = rw h refl

-- What stands in front does not matter beyond its own name.
env_value-cons :
    (x : Pair) (xs ys : Env) (key : Text)
    → (text_eq x.0 key ≡ false → env_value xs key ≡ env_value ys key)
    → env_value (x ∷ xs) key ≡ env_value (x ∷ ys) key
env_value-cons x xs ys key h = elim (Bool-cases (text_eq x.0 key)) [
  | inl b ↦ env_value-same x xs key b ∙ sym (env_value-same x ys key b)
  | inr b ↦ env_value-other x xs key b ∙ h b ∙ sym (env_value-other x ys key b)
]

text_eq-other : (s t u : Text) → text_eq s t ≡ true → text_eq t u ≡ false → text_eq s u ≡ false
text_eq-other s t u h k = rw (text_eq_sound s t h) k

env_value-dedup_behind :
    (last key : Text) (xs : Env)
    → text_eq last key ≡ false
    → env_value (dedup_behind last xs) key ≡ env_value xs key
unfolding dedup_behind
env_value-dedup_behind last key [] h = refl
env_value-dedup_behind last key (y ∷ ys) h = elim (Bool-cases (text_eq y.0 last)) [
  | inl b ↦ rw b (
      env_value-dedup_behind last key ys h
      ∙ sym (env_value-other y ys key (text_eq-other y.0 last key b h)))
  | inr b ↦ rw b (env_value-cons y (dedup_behind y.0 ys) ys key (env_value-dedup_behind y.0 key ys))
]

env_value-dedup_names : (xs : Env) (key : Text) → env_value (dedup_names xs) key ≡ env_value xs key
unfolding dedup_names
env_value-dedup_names [] key = refl
env_value-dedup_names (x ∷ xs) key =
    env_value-cons x (dedup_behind x.0 xs) xs key (env_value-dedup_behind x.0 key xs)

lt-other : (s t : Text) → text_lt s t ≡ true → text_eq s t ≡ false
lt-other s t h = elim (Bool-cases (text_eq s t)) [
  | inl b ↦ ground (arith, ap (λ (u : Text). text_lt u t) (text_eq_sound s t b), text_lt_irrefl t)
  | inr b ↦ b
]

-- Two pairs of different names may change places.
env_value-swap :
    (x y : Pair) (xs : Env) (key : Text)
    → text_eq y.0 x.0 ≡ false
    → env_value (y ∷ x ∷ xs) key ≡ env_value (x ∷ y ∷ xs) key
env_value-swap x y xs key h = elim (Bool-cases (text_eq y.0 key)) [
  | inl b ↦
      env_value-same y (x ∷ xs) key b
      ∙ sym (env_value-other x (y ∷ xs) key (key_of x.0 y.0 key b h) ∙ env_value-same y xs key b)
  | inr b ↦
      env_value-other y (x ∷ xs) key b
      ∙ env_value-cons x xs (y ∷ xs) key (λ k. sym (env_value-other y xs key b))
]
  where
    key_of : (s t u : Text) → text_eq t u ≡ true → text_eq t s ≡ false → text_eq s u ≡ false
    key_of s t u e n = elim (Bool-cases (text_eq s u)) [
      | inl b ↦ ground (
        arith,
        text_eq_refl s,
        ap (λ (v : Text). text_eq v s) (text_eq_sound t u e ∙ sym (text_eq_sound s u b)),
      )
      | inr b ↦ b
    ]

env_value-insert_by :
    (x : Pair) (xs : Env) (key : Text)
    → env_value (insert_by not_before x xs) key ≡ env_value (x ∷ xs) key
unfolding insert_by
env_value-insert_by x [] key = refl
env_value-insert_by x (y ∷ ys) key = elim (Bool-cases (text_lt y.0 x.0)) [
  | inl b ↦ rw b (
      env_value-cons y (insert_by not_before x ys) (x ∷ ys) key (λ k. env_value-insert_by x ys key)
      ∙ env_value-swap x y ys key (lt-other y.0 x.0 b))
  | inr b ↦ rw b refl
]

env_value-sort_by :
    (xs : Env) (key : Text) → env_value (sort_by not_before xs) key ≡ env_value xs key
unfolding sort_by
env_value-sort_by [] key = refl
env_value-sort_by (x ∷ xs) key =
    env_value-insert_by x (sort_by not_before xs) key
    ∙ env_value-cons x (sort_by not_before xs) xs key (λ k. env_value-sort_by xs key)

-- After a variable is set, its name has the new value, and every other name the value it had.
pub env_value-upsert_env_pair :
    (env : Env) (key value other : Text)
    → env_value (upsert_env_pair env key value) other
      ≡ (if text_eq key other then some value else env_value env other)
unfolding upsert_env_pair
env_value-upsert_env_pair [] key value other = unfold env_value in refl
env_value-upsert_env_pair (x ∷ env) key value other = elim (Bool-cases (text_eq x.0 key)) [
  | inl b ↦ rw b (set_here x env key value other b)
  | inr b ↦ rw b (set_later x env key value other b (env_value-upsert_env_pair env key value other))
]
  where
    set_here :
        (x : Pair) (env : Env) (key value other : Text)
        → text_eq x.0 key ≡ true
        → env_value ((x.0, value) ∷ env) other
          ≡ (if text_eq key other then some value else env_value (x ∷ env) other)
    set_here x env key value other b = elim (Bool-cases (text_eq key other)) [
      | inl k ↦ rw k (env_value-same (x.0, value) env other (rw (text_eq_sound x.0 key b) k))
      | inr k ↦ rw k (
          env_value-other (x.0, value) env other (text_eq-other x.0 key other b k)
          ∙ sym (env_value-other x env other (text_eq-other x.0 key other b k)))
    ]

    set_later :
        (x : Pair) (env : Env) (key value other : Text)
        → text_eq x.0 key ≡ false
        → env_value (upsert_env_pair env key value) other
          ≡ (if text_eq key other then some value else env_value env other)
        → env_value (x ∷ upsert_env_pair env key value) other
          ≡ (if text_eq key other then some value else env_value (x ∷ env) other)
    set_later x env key value other b ih = elim (Bool-cases (text_eq x.0 other)) [
      | inl k ↦
          env_value-same x (upsert_env_pair env key value) other k
          ∙ sym (
              ap (λ (t : Bool). if t then some value else env_value (x ∷ env) other)
                (apart x.0 key other b k)
              ∙ env_value-same x env other k)
      | inr k ↦
          env_value-other x (upsert_env_pair env key value) other k
          ∙ ih
          ∙ ap (λ (o : Option Text). if text_eq key other then some value else o)
              (sym (env_value-other x env other k))
    ]
      where
        apart : (s t u : Text) → text_eq s t ≡ false → text_eq s u ≡ true → text_eq t u ≡ false
        apart s t u n e = elim (Bool-cases (text_eq t u)) [
          | inl c ↦ ground (
            arith,
            text_eq_refl s,
            ap (text_eq s) (text_eq_sound s u e ∙ sym (text_eq_sound t u c)),
          )
          | inr c ↦ c
        ]

sort_names-IsSorted : (xs : Env) → IsSorted (sort_names xs)
unfolding sort_names
sort_names-IsSorted xs = sort_by-IsSorted xs

env_value-sort_names : (xs : Env) (key : Text) → env_value (sort_names xs) key ≡ env_value xs key
unfolding sort_names
env_value-sort_names xs key = env_value-sort_by xs key

-- What an environment for a job is resolved from.
pub record IsResolved (vars : Env) (export : Option Text) (export_file : Option (Answer Text))
    (env : Env) : Type 0 where
  seed : Env
  raw : Env
  from_file : file_env export_file ≡ ok seed
  exported : export_env vars export seed ≡ ok raw
  ascending : IsAscending env
  same_values : (key : Text) → env_value env key ≡ env_value raw key

-- The environment that `resolve_export_env` returns has its names in strictly ascending order, so none
-- twice, and every name has the value it has first in what the export file and then `--export` give.
pub resolve_export_env-IsResolved :
    (vars : Env) (export : Option Text) (export_file : Option (Answer Text)) (env : Env)
    → resolve_export_env vars export export_file ≡ ok env
    → IsResolved vars export export_file env
unfolding resolve_export_env
resolve_export_env-IsResolved vars export export_file env h =
    let (seed, from_file, later) = bind-ok (file_env export_file) _ env h in
    let (raw, exported, last) = bind-ok (export_env vars export seed) _ env later in
    rw (sym (ok-injective (dedup_names (sort_names raw)) env last)) (record {
      seed = seed;
      raw = raw;
      from_file = from_file;
      exported = exported;
      ascending = dedup_names-IsAscending (sort_names raw) (sort_names-IsSorted raw);
      same_values =
          λ key. env_value-dedup_names (sort_names raw) key ∙ env_value-sort_names raw key;
    })
