-- ===== src/Store/OrderLaws.antt =====
-- The order of the waiting jobs, of src/store/support.rs, as a list with the same jobs.
use mathlib.Core.List.{Perm, Permᴰ, perm_middle}
use mathlib.Core.Logic.{∥∥₁_elim}
use native.Mathlib.Nat.{ℕ_set}
use mathlib.Core.List.Perm
use slotd.Prelude.{
  ℕ, zero, suc, ◌+◌, ◌<◌, ◌≡◌, refl, ap, ◌∙◌, Bool, List, [], ◌∷◌, ◌++◌, arith, ◌==◌, ltb, length,
  length-append, All, All-append, Bool-cases, inl, inr, map, append_assoc, append-nil, sort_by,
  insert_by, sort_by-perm, sort_by-All,
}
use slotd.Job.{JobRecord}
use slotd.Store.Order.{
  Group, group_key, push_group, group_jobs, first_jobs, other_jobs, take_rounds, jobs_of,
  order_pending_jobs, group_before, job_before,
}

-- The jobs of a list of groups.
abbrev flat : List (List JobRecord) → List JobRecord
flat [] = []
flat (js ∷ gs) = js ++ flat gs

abbrev jobs_in : List Group → List JobRecord
jobs_in [] = []
jobs_in (g ∷ gs) = g.1 ++ jobs_in gs

jobs_in-flat : (gs : List Group) → flat (map jobs_of gs) ≡ jobs_in gs
jobs_in-flat [] = refl
jobs_in-flat (g ∷ gs) = rw (jobs_in-flat gs)

push_group-perm :
    (job : JobRecord) (gs : List Group) → Perm (jobs_in (push_group job gs)) (job ∷ jobs_in gs)
unfolding push_group
push_group-perm job [] = Perm.refl _
push_group-perm job ((key, jobs) ∷ gs) = elim (Bool-cases (group_key job == key)) [
  | inl e ↦ rw (e, append_assoc) (perm_middle jobs (jobs_in gs))
  | inr e ↦ elim (Bool-cases (ltb (group_key job) key)) [
    | inl h ↦ rw (e, h) (Perm.refl _)
    | inr h ↦
        rw (e, h)
          (Perm.trans (Perm.append_left jobs (push_group-perm job gs))
            (perm_middle jobs (jobs_in gs)))
  ]
]

group_jobs-perm :
    (gs : List Group) (jobs : List JobRecord)
    → Perm (jobs_in (group_jobs gs jobs)) (jobs ++ jobs_in gs)
unfolding group_jobs
group_jobs-perm gs [] = Perm.refl _
group_jobs-perm gs (job ∷ jobs) =
    Perm.trans (group_jobs-perm (push_group job gs) jobs)
      (Perm.trans (Perm.append_left jobs (push_group-perm job gs)) (perm_middle jobs (jobs_in gs)))

swap_front : (xs ys zs : List JobRecord) → Perm (xs ++ (ys ++ zs)) (ys ++ (xs ++ zs))
swap_front [] ys zs = Perm.refl _
swap_front (x ∷ xs) ys zs =
    Perm.trans (Perm.cons x (swap_front xs ys zs)) (Perm.symm (perm_middle ys (xs ++ zs)))

insert_by-perm_in :
    (before : Group → Group → Bool) (g : Group) (gs : List Group)
    → Perm (jobs_in (insert_by before g gs)) (g.1 ++ jobs_in gs)
unfolding insert_by
insert_by-perm_in before g [] = Perm.refl _
insert_by-perm_in before g (h ∷ gs) = elim (Bool-cases (before g h)) [
  | inl e ↦ rw e (Perm.refl _)
  | inr e ↦ rw e (
      Perm.trans (Perm.append_left h.1 (insert_by-perm_in before g gs))
        (swap_front h.1 g.1 (jobs_in gs)))
]

sort_by-perm_in :
    (before : Group → Group → Bool) (gs : List Group)
    → Perm (jobs_in (sort_by before gs)) (jobs_in gs)
unfolding sort_by
sort_by-perm_in before [] = Perm.refl _
sort_by-perm_in before (g ∷ gs) =
    Perm.trans (insert_by-perm_in before g (sort_by before gs))
      (Perm.append_left g.1 (sort_by-perm_in before gs))

round-perm : (gs : List (List JobRecord)) → Perm (first_jobs gs ++ flat (other_jobs gs)) (flat gs)
unfolding first_jobs other_jobs
round-perm [] = Perm.refl _
round-perm ([] ∷ gs) = round-perm gs
round-perm ((j ∷ js) ∷ gs) = Perm.cons j (
    Perm.trans (swap_front (first_jobs gs) js (flat (other_jobs gs)))
      (Perm.append_left js (round-perm gs)))

first_jobs-nil : (gs : List (List JobRecord)) → first_jobs gs ≡ [] → flat gs ≡ []
unfolding first_jobs
first_jobs-nil [] e = refl
first_jobs-nil ([] ∷ gs) e = first_jobs-nil gs e
first_jobs-nil ((j ∷ js) ∷ gs) e = cc

length-round :
    (gs : List (List JobRecord))
    → length (first_jobs gs) + length (flat (other_jobs gs)) ≡ length (flat gs)
unfolding first_jobs other_jobs
length-round [] = refl
length-round ([] ∷ gs) = length-round gs
length-round ((j ∷ js) ∷ gs) =
    omega
      (arith, length-append js (flat (other_jobs gs)), length-append js (flat gs), length-round gs)

-- Enough rounds take every job of every group.
take_rounds-perm :
    (fuel : ℕ) (gs : List (List JobRecord))
    → length (flat gs) < fuel
    → Perm (take_rounds fuel gs) (flat gs)
unfolding take_rounds
take_rounds-perm zero gs h = elim h [ ]
take_rounds-perm (suc fuel) gs h = go (first_jobs gs) refl (take_rounds-perm fuel (other_jobs gs))
  where
    go :
        (firsts : List JobRecord)
        → first_jobs gs ≡ firsts
        → (length (flat (other_jobs gs)) < fuel
            → Perm (take_rounds fuel (other_jobs gs)) (flat (other_jobs gs)))
        → Perm (take_rounds (suc fuel) gs) (flat gs)
    go [] e ih = rw (e, take_rounds) (rw (first_jobs-nil gs e) (Perm.refl _))
    go (j ∷ js) e ih =
        rw (e, take_rounds)
          (Perm.trans
            (Perm.append_left (j ∷ js) (ih (omega (arith, length-round gs, ap length e, h))))
            (rw e at (round-perm gs)))

length-permᴰ : {xs ys : List JobRecord} → Permᴰ xs ys → length xs ≡ length ys
length-permᴰ Permᴰ.nil = refl
length-permᴰ (Permᴰ.cons e p) = ap suc (length-permᴰ p)
length-permᴰ (Permᴰ.swap e f) = refl
length-permᴰ (Permᴰ.trans p q) = length-permᴰ p ∙ length-permᴰ q

length-perm : {xs ys : List JobRecord} → Perm xs ys → length xs ≡ length ys
length-perm p = ∥∥₁_elim p (ℕ_set _ _) length-permᴰ

-- Ordering the waiting jobs loses no job and repeats none.
pub order-perm : (jobs : List JobRecord) → Perm (order_pending_jobs jobs) jobs
unfolding order_pending_jobs
order-perm jobs =
    Perm.trans
      (take_rounds-perm (suc (length jobs)) (map jobs_of (sort_by group_before grouped))
        (rw (jobs_in-flat (sort_by group_before grouped)) (omega (arith, length-perm whole))))
      (rw (jobs_in-flat (sort_by group_before grouped)) whole)
  where
    grouped : List Group
    grouped = group_jobs [] (sort_by job_before jobs)

    whole : Perm (jobs_in (sort_by group_before grouped)) jobs
    whole = Perm.trans (sort_by-perm_in group_before grouped) (
        Perm.trans (group_jobs-perm [] (sort_by job_before jobs))
          (rw append-nil (sort_by-perm job_before jobs)))

-- What holds of every job holds of every job in the order.
module _ {κ} (Q : JobRecord → Type κ) where
  push_group-All :
      (job : JobRecord) (gs : List Group)
      → Q job
      → All (λ g. All Q g.1) gs
      → All (λ g. All Q g.1) (push_group job gs)
  unfolding push_group
  push_group-All job [] q a = ((q, tt), tt)
  push_group-All job ((key, jobs) ∷ gs) q a = elim (Bool-cases (group_key job == key)) [
    | inl e ↦ rw e (All-append Q jobs (job ∷ []) a.0 (q, tt), a.1)
    | inr e ↦ elim (Bool-cases (ltb (group_key job) key)) [
      | inl h ↦ rw (e, h) ((q, tt), a)
      | inr h ↦ rw (e, h) (a.0, push_group-All job gs q a.1)
    ]
  ]

  group_jobs-All :
      (gs : List Group) (jobs : List JobRecord)
      → All Q jobs
      → All (λ g. All Q g.1) gs
      → All (λ g. All Q g.1) (group_jobs gs jobs)
  unfolding group_jobs
  group_jobs-All gs [] q a = a
  group_jobs-All gs (job ∷ jobs) q a =
      group_jobs-All (push_group job gs) jobs q.1 (push_group-All job gs q.0 a)

  map-All : (gs : List Group) → All (λ g. All Q g.1) gs → All (All Q) (map jobs_of gs)
  map-All [] a = tt
  map-All (g ∷ gs) a = (a.0, map-All gs a.1)

  first_jobs-All : (gs : List (List JobRecord)) → All (All Q) gs → All Q (first_jobs gs)
  unfolding first_jobs
  first_jobs-All [] a = tt
  first_jobs-All ([] ∷ gs) a = first_jobs-All gs a.1
  first_jobs-All ((j ∷ js) ∷ gs) a = (a.0.0, first_jobs-All gs a.1)

  other_jobs-All : (gs : List (List JobRecord)) → All (All Q) gs → All (All Q) (other_jobs gs)
  unfolding other_jobs
  other_jobs-All [] a = tt
  other_jobs-All ([] ∷ gs) a = (tt, other_jobs-All gs a.1)
  other_jobs-All ((j ∷ js) ∷ gs) a = (a.0.1, other_jobs-All gs a.1)

  take_rounds-All :
      (fuel : ℕ) (gs : List (List JobRecord)) → All (All Q) gs → All Q (take_rounds fuel gs)
  unfolding take_rounds
  take_rounds-All zero gs a = tt
  take_rounds-All (suc fuel) gs a =
      go (first_jobs gs) (first_jobs-All gs a)
        (take_rounds-All fuel (other_jobs gs) (other_jobs-All gs a))
    where
      go :
          (firsts : List JobRecord)
          → All Q firsts
          → All Q (take_rounds fuel (other_jobs gs))
          → All Q (elim firsts [ [] ↦ [] | j ∷ js ↦ (j ∷ js) ++ take_rounds fuel (other_jobs gs) ])
      go [] f r = tt
      go (j ∷ js) f r = (f.0, All-append Q js _ f.1 r)

  pub order-All : (jobs : List JobRecord) → All Q jobs → All Q (order_pending_jobs jobs)
  unfolding order_pending_jobs
  order-All jobs q = take_rounds-All (suc (length jobs)) _ (
      map-All _ (
        sort_by-All _ group_before _
          (group_jobs-All [] (sort_by job_before jobs) (sort_by-All Q job_before jobs q) tt)))
