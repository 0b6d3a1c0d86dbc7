-- ===== src/Command/Sorting.antt =====
-- The order of `squeue --sort`: `sort_squeue_jobs` of src/command/helpers.rs.
use slotd.Prelude.{
  ℕ, Bool, [], ◌∷◌, All, All-imp, refl, leb, leb_ℤ, ◌≤◌, lit, ◌≡◌, true, false, List, Option, none,
  some, Text, arith, ℤ, Bool-cases, inl, inr, sort_by-perm,
}
use mathlib.Core.List.{Perm}
use mathlib.Core.List.Perm
use slotd.Prelude.Sorting.{Ordered, sort_by-Ordered}
use slotd.Strings.{text_case, to_ascii_lowercase, starts_with, trim, is_empty, text_lt}
use slotd.Strings.Order.{text_lt_irrefl, text_lt_trans, text_lt_split}
use slotd.Job.{JobRecord, state_str}
use slotd.Command.Helpers.{
  trim_signs, SortKey, by_id, by_partition, by_user, by_state, by_time, key_leb, sort_key,
  may_stand_before, sort_squeue_jobs, text_leb, time_leb,
}

text_leb-total : (s t : Text) → text_leb s t ≡ false → text_leb t s ≡ true
unfolding text_leb
text_leb-total s t h = elim (Bool-cases (text_lt s t)) [
  | inl b ↦ ground (arith, text_lt_trans s t s b, text_lt_irrefl s)
  | inr b ↦ ground arith
]

text_leb_trans : (s t u : Text) → text_leb s t ≡ true → text_leb t u ≡ true → text_leb s u ≡ true
unfolding text_leb
text_leb_trans s t u h k = elim (Bool-cases (text_lt u s)) [
  | inl b ↦ elim (text_lt_split u t s b) [ inl l ↦ ground arith | inr r ↦ ground arith ]
  | inr b ↦ ground arith
]

time_leb-total : (s t : Option ℤ) → time_leb s t ≡ false → time_leb t s ≡ true
unfolding time_leb
time_leb-total none t h = ground arith
time_leb-total (some s) none h = ground arith
time_leb-total (some s) (some t) h = ground arith

time_leb_trans :
    (s t u : Option ℤ) → time_leb s t ≡ true → time_leb t u ≡ true → time_leb s u ≡ true
unfolding time_leb
time_leb_trans none t u h k = ground arith
time_leb_trans (some s) none u h k = ground arith
time_leb_trans (some s) (some t) none h k = ground arith
time_leb_trans (some s) (some t) (some u) h k = ground arith

key_leb-total : (k : SortKey) (a b : JobRecord) → key_leb k a b ≡ false → key_leb k b a ≡ true
unfolding key_leb
key_leb-total by_id a b h = ground arith
key_leb-total by_partition a b h = text_leb-total a.partition b.partition h
key_leb-total by_user a b h = text_leb-total a.user_name b.user_name h
key_leb-total by_state a b h = text_leb-total (state_str a.state) (state_str b.state) h
key_leb-total by_time a b h = time_leb-total a.start_time b.start_time h

key_leb_trans :
    (k : SortKey) (a b c : JobRecord)
    → key_leb k a b ≡ true
    → key_leb k b c ≡ true
    → key_leb k a c ≡ true
unfolding key_leb
key_leb_trans by_id a b c h l = ground arith
key_leb_trans by_partition a b c h l = text_leb_trans a.partition b.partition c.partition h l
key_leb_trans by_user a b c h l = text_leb_trans a.user_name b.user_name c.user_name h l
key_leb_trans by_state a b c h l =
    text_leb_trans (state_str a.state) (state_str b.state) (state_str c.state) h l
key_leb_trans by_time a b c h l = time_leb_trans a.start_time b.start_time c.start_time h l

may_stand_before-total :
    (sort : Text) (a b : JobRecord)
    → may_stand_before sort a b ≡ false
    → may_stand_before sort b a ≡ true
unfolding may_stand_before
may_stand_before-total sort a b h =
    ground (arith, key_leb-total (sort_key sort) a b, key_leb-total (sort_key sort) b a)

may_stand_before_trans :
    (sort : Text) (a b c : JobRecord)
    → may_stand_before sort a b ≡ true
    → may_stand_before sort b c ≡ true
    → may_stand_before sort a c ≡ true
unfolding may_stand_before
may_stand_before_trans sort a b c h k =
    ground (arith, key_leb_trans (sort_key sort) a b c, key_leb_trans (sort_key sort) c b a)

ordered :
    (js : List JobRecord) (sort : Text)
    → is_empty (trim sort) ≡ false
    → Ordered (may_stand_before (trim sort)) (sort_squeue_jobs js (some sort))
unfolding sort_squeue_jobs
ordered js sort h = rw h (
    sort_by-Ordered (may_stand_before (trim sort)) (may_stand_before-total (trim sort))
      (may_stand_before_trans (trim sort)) js)

permuted : (js : List JobRecord) (sort : Option Text) → Perm (sort_squeue_jobs js sort) js
unfolding sort_squeue_jobs
permuted js none = Perm.refl js
permuted js (some sort) = elim (Bool-cases (is_empty (trim sort))) [
  | inl b ↦ rw b (Perm.refl js)
  | inr b ↦ rw b (sort_by-perm (may_stand_before (trim sort)) js)
]

-- Every job stands in this relation to all that follow it.
abbrev pub Following : (JobRecord → JobRecord → Type 0) → List JobRecord → Type 0
Following R [] = Unit
Following R (x ∷ xs) = All (λ y. R x y) xs × Following R xs

following :
    (before : JobRecord → JobRecord → Bool) (R : JobRecord → JobRecord → Type 0)
    → ((a b : JobRecord) → before a b ≡ true → R a b)
    → (js : List JobRecord) → Ordered before js
    → Following R js
following before R h [] o = tt
following before R h (x ∷ xs) o = (
  All-imp (λ y. before x y ≡ true) (λ y. R x y) xs (λ y l. h x y l) o.0,
  following before R h xs o.1,
)

-- A missing time is before every time.
pub NotLater : Option ℤ → Option ℤ → Type 0
NotLater none t = Unit
NotLater (some s) none = ⊥
NotLater (some s) (some t) = leb_ℤ s t ≡ true

time_leb-NotLater : (s t : Option ℤ) → time_leb s t ≡ true → NotLater s t
unfolding time_leb NotLater
time_leb-NotLater none t h = tt
time_leb-NotLater (some s) none h = ground arith
time_leb-NotLater (some s) (some t) h = h

text_leb-lt : (s t : Text) → text_leb s t ≡ true → text_lt t s ≡ false
unfolding text_leb
text_leb-lt s t h = ground arith

-- The key of this name sorts by a relation, and with `-` before it by the opposite relation.
abbrev pub Sorts : List JobRecord → Text → (JobRecord → JobRecord → Type 0) → Type 0
Sorts js name R =
    Following R (sort_squeue_jobs js (some name))
    × Following (λ a b. R b a) (sort_squeue_jobs js (some (b'-' ∷ name)))

sorts :
    (js : List JobRecord) (name : Text) (R : JobRecord → JobRecord → Type 0)
    → is_empty (trim name) ≡ false
    → is_empty (trim (b'-' ∷ name)) ≡ false
    → ((a b : JobRecord) → may_stand_before (trim name) a b ≡ true → R a b)
    → ((a b : JobRecord) → may_stand_before (trim (b'-' ∷ name)) a b ≡ true → R b a)
    → Sorts js name R
sorts js name R e f h k = (
  following (may_stand_before (trim name)) R h _ (ordered js name e),
  following (may_stand_before (trim (b'-' ∷ name))) (λ a b. R b a) k _ (ordered js (b'-' ∷ name) f),
)

abbrev pub ByTexts : (JobRecord → Text) → JobRecord → JobRecord → Type 0
ByTexts column a b = text_lt (column b) (column a) ≡ false

abbrev pub ByIds : JobRecord → JobRecord → Type 0
ByIds a b = a.id ≤ b.id

abbrev pub ByTimes : JobRecord → JobRecord → Type 0
ByTimes a b = NotLater a.start_time b.start_time

-- What the keys mean.
pub record Sorted (js : List JobRecord) : Type 0 where
  permutes : (sort : Option Text) → Perm (sort_squeue_jobs js sort) js
  ids : Sorts js (lit "i") ByIds × Sorts js (lit "jobid") ByIds
  partitions :
      Sorts js (lit "p") (ByTexts (λ j. j.partition))
      × Sorts js (lit "partition") (ByTexts (λ j. j.partition))
  users :
      Sorts js (lit "u") (ByTexts (λ j. j.user_name))
      × Sorts js (lit "user") (ByTexts (λ j. j.user_name))
  states :
      Sorts js (lit "t") (ByTexts (λ j. state_str j.state))
      × Sorts js (lit "state") (ByTexts (λ j. state_str j.state))
  times : Sorts js (lit "m") ByTimes × Sorts js (lit "time") ByTimes

le_of_leb : (m n : ℕ) → leb m n ≡ true → m ≤ n
le_of_leb m n h = ground arith

-- `sort_squeue_jobs` permutes the jobs, whatever the specification; by `i` and `jobid` their ids ascend, by
-- `p`, `partition`, `u`, `user`, `t` and `state` no partition, user or state stands behind a greater text,
-- and by `m` and `time` the start times ascend, jobs without one first; with `-` in front, all of these
-- descend.
pub sort_squeue_jobs-Sorted : (js : List JobRecord) → Sorted js
unfolding may_stand_before sort_key key_leb trim_signs starts_with text_case to_ascii_lowercase trim
    is_empty lit
sort_squeue_jobs-Sorted js = record {
  permutes = permuted js;
  ids = (
    sorts js _ _ refl refl (λ a b h. le_of_leb a.id b.id h) (λ a b h. le_of_leb b.id a.id h),
    sorts js _ _ refl refl (λ a b h. le_of_leb a.id b.id h) (λ a b h. le_of_leb b.id a.id h),
  );
  partitions = (
    sorts js _ _ refl refl (λ a b h. text_leb-lt a.partition b.partition h)
        (λ a b h. text_leb-lt b.partition a.partition h),
    sorts js _ _ refl refl (λ a b h. text_leb-lt a.partition b.partition h)
        (λ a b h. text_leb-lt b.partition a.partition h),
  );
  users = (
    sorts js _ _ refl refl (λ a b h. text_leb-lt a.user_name b.user_name h)
        (λ a b h. text_leb-lt b.user_name a.user_name h),
    sorts js _ _ refl refl (λ a b h. text_leb-lt a.user_name b.user_name h)
        (λ a b h. text_leb-lt b.user_name a.user_name h),
  );
  states = (
    sorts js _ _ refl refl (λ a b h. text_leb-lt (state_str a.state) (state_str b.state) h)
        (λ a b h. text_leb-lt (state_str b.state) (state_str a.state) h),
    sorts js _ _ refl refl (λ a b h. text_leb-lt (state_str a.state) (state_str b.state) h)
        (λ a b h. text_leb-lt (state_str b.state) (state_str a.state) h),
  );
  times = (
    sorts js _ _ refl refl (λ a b h. time_leb-NotLater a.start_time b.start_time h)
        (λ a b h. time_leb-NotLater b.start_time a.start_time h),
    sorts js _ _ refl refl (λ a b h. time_leb-NotLater a.start_time b.start_time h)
        (λ a b h. time_leb-NotLater b.start_time a.start_time h),
  );
}
