-- ===== src/Store/Gpus.antt =====
-- `allocate_gpu_ids` of src/store/allocation.rs against a description of the free GPUs.
use slotd.Prelude.{
  ℕ, zero, suc, ◌+◌, ◌≡◌, refl, true, false, List, [], ◌∷◌, ◌++◌, lit, leb, ◌==◌, if◌then◌else◌,
  length, none, Result, ok, err, message, arith, Bool-cases, inl, inr, append_assoc, append-nil,
  sym, ◌∙◌,
}
use slotd.Store.Table.{Store}
use slotd.Store.Usage.{contains, pick_gpus, allocate_gpu_ids, gpu_ids_in_use}

unfoldable pub take {ℓ} : {A : Type ℓ} → ℕ → List A → List A
take zero xs = []
take (suc n) [] = []
take (suc n) (x ∷ xs) = x ∷ take n xs

-- The ids from `gpu_id` on, `rounds` of them, that are not in use.
unfoldable pub free_ids : ℕ → ℕ → List ℕ → List ℕ
free_ids zero gpu_id used = []
free_ids (suc rounds) gpu_id used =
    let rest = free_ids rounds (suc gpu_id) used in
    if contains gpu_id used then rest else gpu_id ∷ rest

length-append_one : (xs : List ℕ) (x : ℕ) → length (xs ++ x ∷ []) ≡ suc (length xs)
length-append_one [] x = refl
length-append_one (y ∷ xs) x = omega (arith, length-append_one xs x)

-- The loop in the words of its tests.
pick_gpus-free :
    (rounds gpu_id : ℕ) (used assigned : List ℕ) (requested : ℕ)
    → contains gpu_id used ≡ false
    → pick_gpus (suc rounds) gpu_id used assigned requested ≡ (
        if suc (length assigned) == requested
        then assigned ++ gpu_id ∷ []
        else pick_gpus rounds (suc gpu_id) used (assigned ++ gpu_id ∷ []) requested)
unfolding pick_gpus
pick_gpus-free rounds gpu_id used assigned requested h =
    rw (h, pick_gpus, length-append_one assigned gpu_id)
      (elim (Bool-cases (suc (length assigned) == requested)) [
        | inl e ↦ rw e refl
        | inr e ↦ rw e refl
      ])

is_last : (n requested : ℕ) → requested ≡ n + 1 → (suc n == requested) ≡ true
is_last n requested e = ground arith

not_last : (n left requested : ℕ) → requested ≡ n + suc (suc left) → (suc n == requested) ≡ false
not_last n left requested e = ground arith

-- With `left` and one more to find, the loop adds that many of the free ids, or all there are.
pick_gpus-take :
    (rounds gpu_id : ℕ) (used assigned : List ℕ) (left requested : ℕ)
    → requested ≡ length assigned + suc left
    → pick_gpus rounds gpu_id used assigned requested
      ≡ assigned ++ take (suc left) (free_ids rounds gpu_id used)
unfolding pick_gpus free_ids take
pick_gpus-take zero gpu_id used assigned left requested e = sym (append-nil assigned)
pick_gpus-take (suc rounds) gpu_id used assigned zero requested e =
    elim (Bool-cases (contains gpu_id used)) [
      | inl h ↦
          rw (h, pick_gpus, free_ids)
            (pick_gpus-take rounds (suc gpu_id) used assigned zero requested e)
      | inr h ↦
          pick_gpus-free rounds gpu_id used assigned requested h
          ∙ rw (h, free_ids, is_last (length assigned) requested e) refl
    ]
pick_gpus-take (suc rounds) gpu_id used assigned (suc left) requested e =
    elim (Bool-cases (contains gpu_id used)) [
      | inl h ↦
          rw (h, pick_gpus, free_ids)
            (pick_gpus-take rounds (suc gpu_id) used assigned (suc left) requested e)
      | inr h ↦
          pick_gpus-free rounds gpu_id used assigned requested h
          ∙ rw (h, free_ids, not_last (length assigned) left requested e)
              (pick_gpus-take rounds (suc gpu_id) used (assigned ++ gpu_id ∷ []) left requested
                  (omega (arith, e, length-append_one assigned gpu_id))
                ∙ append_assoc assigned (gpu_id ∷ []) _)
    ]

length-take :
    (n : ℕ) (xs : List ℕ) → length (take n xs) ≡ (if leb n (length xs) then n else length xs)
unfolding take
length-take zero xs = ground arith
length-take (suc n) [] = ground arith
length-take (suc n) (x ∷ xs) = ground (arith, length-take n xs)

enough_picked :
    (n : ℕ) (xs : List ℕ) (r : Result (List ℕ))
    → (if suc n == 0
        then ok []
        else if length (take (suc n) xs) == suc n
        then ok (take (suc n) xs)
        else r)
      ≡ (if leb (suc n) (length xs) then ok (take (suc n) xs) else r)
enough_picked n xs r = ground (arith, length-take (suc n) xs)

none_asked : (n : ℕ) (r : Result (List ℕ)) → ok [] ≡ (if leb 0 n then ok [] else r)
none_asked n r = ground arith

-- The GPUs handed out are the lowest free ones, as many as asked for; if fewer are free, the
-- allocation is refused.
pub allocate_gpu_ids-take :
    (requested : ℕ) (s : Store)
    → allocate_gpu_ids requested s ≡ (
        if leb requested (length (free_ids s.config.total_gpus 0 (gpu_ids_in_use none s)))
        then ok (take requested (free_ids s.config.total_gpus 0 (gpu_ids_in_use none s)))
        else err (message (lit "not enough free GPU IDs to satisfy the request")))
unfolding allocate_gpu_ids take
allocate_gpu_ids-take zero s =
    none_asked (length (free_ids s.config.total_gpus 0 (gpu_ids_in_use none s))) _
allocate_gpu_ids-take (suc n) s =
    rw (pick_gpus-take s.config.total_gpus 0 (gpu_ids_in_use none s) [] n (suc n) (omega arith))
      (enough_picked n (free_ids s.config.total_gpus 0 (gpu_ids_in_use none s)) _)
