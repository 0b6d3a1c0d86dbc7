-- ===== src/Submit/Pattern/Laws.antt =====
-- The codes of `expand_output_pattern` of src/submit/sbatch.rs.
use slotd.Prelude.{ℕ, ◌≡◌, refl, ap, false, [], ◌∷◌, ◌++◌, Text, ◌==◌, All, lit, none, some, ◌∙◌}
use slotd.Strings.{show_nat, show_int}
use slotd.Submit.Pattern.{Names, expand_code, expand_output_pattern, array_task_text}

pattern_step :
    (n : Names) (before : Text) (c : ℕ) (rest : Text)
    → All (λ x. (x == b'%') ≡ false) before
    → expand_output_pattern n (before ++ b'%' ∷ c ∷ rest)
      ≡ before ++ expand_code n c ++ expand_output_pattern n rest
unfolding expand_output_pattern
pattern_step n [] c rest a = refl
pattern_step n (x ∷ []) c rest a = rw (a.0, expand_output_pattern) refl
pattern_step n (x ∷ y ∷ before) c rest a =
    rw (a.0, expand_output_pattern) (ap (λ t. x ∷ t) (pattern_step n (y ∷ before) c rest a.1))

-- A code `%c` behind `before` gives `text`.
abbrev pub Gives : Names → Text → Text → ℕ → Text → Type 0
Gives n before rest c text =
    expand_output_pattern n (before ++ b'%' ∷ c ∷ rest)
    ≡ before ++ text ++ expand_output_pattern n rest

abbrev pub codes : Text
codes = lit "%jAaxuN"

pub record Codes (n : Names) (before rest : Text) (other : ℕ) : Type 0 where
  percent : Gives n before rest b'%' (lit "%")
  job : Gives n before rest b'j' (show_nat n.job_id)
  array : Gives n before rest b'A' (show_nat (elim n.array_job_id [ none ↦ n.job_id | some a ↦ a ]))
  task :
      Gives n before rest b'a'
        (elim n.array_task_id [ none ↦ lit "4294967294" | some t ↦ show_int t ])
  name : Gives n before rest b'x' n.job_name
  user : Gives n before rest b'u' n.user_name
  host : Gives n before rest b'N' n.hostname
  unknown : Gives n before rest other (b'%' ∷ other ∷ [])

task_code :
    (n : Names)
    → expand_code n b'a' ≡ elim n.array_task_id [ none ↦ lit "4294967294" | some t ↦ show_int t ]
unfolding expand_code array_task_text
task_code n = refl

other_code :
    (n : Names) (other : ℕ)
    → All (λ x. (other == x) ≡ false) codes
    → expand_code n other ≡ b'%' ∷ other ∷ []
unfolding expand_code lit
other_code n other (a, (b, (c, (d, (e, (f, (g, u))))))) = rw (a, b, c, d, e, f, g) refl

array_code :
    (n : Names)
    → expand_code n b'A' ≡ show_nat (elim n.array_job_id [ none ↦ n.job_id | some a ↦ a ])
unfolding expand_code
array_code n = refl

-- Behind text without `%`, each code is replaced: `%%` by a percent sign, `%j` by the job's id, `%A` by
-- the id of its array, or its own, `%a` by its index in the array, or 4294967294, `%x`, `%u` and `%N` by the
-- names of the job, the user and the host, while a code that is none of these stays as it is; the text
-- before it stays, and the rest is expanded by itself.
pub expand_output_pattern-Codes :
    (n : Names) (before rest : Text) (other : ℕ)
    → All (λ x. (x == b'%') ≡ false) before
    → All (λ x. (other == x) ≡ false) codes
    → Codes n before rest other
unfolding lit
expand_output_pattern-Codes n before rest other a fresh =
    let step : (c : ℕ) (text : Text) → expand_code n c ≡ text → Gives n before rest c text =
      λ c text e.
        pattern_step n before c rest a ∙ ap (λ t. before ++ t ++ expand_output_pattern n rest) e in
    record {
      percent = step _ _ (unfold expand_code in refl);
      job = step _ _ (unfold expand_code in refl);
      array = step _ _ (array_code n);
      task = step _ _ (task_code n);
      name = step _ _ (unfold expand_code in refl);
      user = step _ _ (unfold expand_code in refl);
      host = step _ _ (unfold expand_code in refl);
      unknown = step _ _ (other_code n other fresh);
    }
