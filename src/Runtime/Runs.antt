-- ===== src/Runtime/Runs.antt =====
-- Triples for the actions of the daemon, and their rules.
use slotd.Prelude.{
  ◌≡◌, refl, Bool, true, false, Result, ok, err, diverges, Answer, gives, refuses, Halts,
  if◌then◌else◌,
}
use slotd.Store.{Store}
use slotd.Runtime.State.{
  Daemon, RunningJobs, Effect, M, and_then, ◌>>=◌, ◌>>◌, pure, lift, ask, read, on_store, on_runner,
  emit,
}

abbrev pub Done : {A : Type 0} → (Store → Type 0) → (A → Store → Type 0) → Result A → Store → Type 0
Done F Q (ok a) s = Q a s
Done F Q (err e) s = F s
Done F Q diverges s = ⊥

pub record Runs {A : Type 0} (F P : Store → Type 0) (m : M A) (Q : A → Store → Type 0)
    : Type 0 where
  pub apply : (d : Daemon) → P d.store → Done F Q (m d).0 (m d).1.store

-- A triple that ends where it began keeps that.
pub Done-kept :
    {A : Type 0} (F : Store → Type 0) (r : Result A) (s : Store) → Done F (λ _. F) r s → F s
Done-kept F (ok a) s v = v
Done-kept F (err e) s v = v
Done-kept F diverges s v = absurd v

module _ (F : Store → Type 0) where
  and_then-Done :
      {A B : Type 0} (r : Result A × Daemon) (f : A → M B) (R : A → Store → Type 0)
      (Q : B → Store → Type 0)
      → Done F R r.0 r.1.store
      → ((a : A) → Runs F (R a) (f a) Q)
      → Done F Q (and_then r f).0 (and_then r f).1.store
  unfolding and_then
  and_then-Done (ok a, d) f R Q v h = (h a).apply d v
  and_then-Done (err e, d) f R Q v h = v
  and_then-Done (diverges, d) f R Q v h = absurd v

  pub bind-Runs :
      {A B : Type 0} {P : Store → Type 0} {m : M A} {f : A → M B} (R : A → Store → Type 0)
      {Q : B → Store → Type 0}
      → Runs F P m R
      → ((a : A) → Runs F (R a) (f a) Q)
      → Runs F P (m >>= f) Q
  unfolding ◌>>=◌
  bind-Runs {A} {B} {P} {m} {f} R {Q} h g = record {
    apply = λ d v. and_then-Done (m d) f R Q (h.apply d v) g;
  }

  pub seq-Runs :
      {B : Type 0} {P : Store → Type 0} {m : M (Unit {0})} {n : M B} (R : Store → Type 0)
      {Q : B → Store → Type 0}
      → Runs F P m (λ _. R)
      → Runs F R n Q
      → Runs F P (m >> n) Q
  unfolding ◌>>◌
  seq-Runs {B} {P} {m} {n} R {Q} h g = record {
    apply = λ d v. and_then-Done (m d) (λ _. n) (λ _. R) Q (h.apply d v) (λ _. g);
  }

  -- Less may be asked before.
  pub pre-Runs :
      {A : Type 0} {P P' : Store → Type 0} {m : M A} {Q : A → Store → Type 0}
      → ((s : Store) → P s → P' s)
      → Runs F P' m Q
      → Runs F P m Q
  pre-Runs i h = record { apply = λ d v. h.apply d (i d.store v) }

  -- Less may be claimed after.
  pub post-Runs :
      {A : Type 0} {P : Store → Type 0} {m : M A} {R Q : A → Store → Type 0}
      → ((a : A) (s : Store) → R a s → Q a s)
      → Runs F P m R
      → Runs F P m Q
  post-Runs {A} {P} {m} {R} {Q} i h = record {
    apply = λ d v. weaken (m d).0 (m d).1.store (h.apply d v);
  }
    where
      weaken : (r : Result A) (s : Store) → Done F R r s → Done F Q r s
      weaken (ok a) s v = i a s v
      weaken (err e) s v = v
      weaken diverges s v = v

  pub if-Runs :
      {A : Type 0} {P : Store → Type 0} {Q : A → Store → Type 0} (b : Bool) {m n : M A}
      → Runs F P m Q
      → Runs F P n Q
      → Runs F P (if b then m else n) Q
  if-Runs true h g = h
  if-Runs false h g = g

  pub either-Runs :
      {A : Type 0} (R : Bool → Store → Type 0) {Q : A → Store → Type 0} (b : Bool) {m n : M A}
      → Runs F (R true) m Q
      → Runs F (R false) n Q
      → Runs F (R b) (elim b [ true ↦ m | false ↦ n ]) Q
  either-Runs R true h g = h
  either-Runs R false h g = g

  pub pure-Runs :
      {A : Type 0} {P : Store → Type 0} {Q : A → Store → Type 0} (a : A)
      → ((s : Store) → P s → Q a s)
      → Runs F P (pure a) Q
  unfolding pure
  pure-Runs a i = record { apply = λ d v. i d.store v }

  pub read-Runs :
      {A : Type 0} {P : Store → Type 0} (f : Store → A) → Runs F P (read f) (λ a s. P s × (a ≡ f s))
  unfolding read
  read-Runs f = record { apply = λ d v. (v, refl) }

  pub lift-Runs :
      {A : Type 0} {P : Store → Type 0} (r : Result A)
      → ((s : Store) → P s → Halts r × F s)
      → Runs F P (lift r) (λ a s. P s × (r ≡ ok a))
  unfolding lift
  lift-Runs (ok a) i = record { apply = λ d v. (v, refl) }
  lift-Runs (err e) i = record { apply = λ d v. (i d.store v).1 }
  lift-Runs diverges i = record { apply = λ d v. (i d.store v).0 }

  pub ask-Runs :
      {A : Type 0} {P : Store → Type 0} (a : Answer A)
      → ((s : Store) → P s → F s)
      → Runs F P (ask a) (λ _. P)
  unfolding ask
  ask-Runs (gives a) i = record { apply = λ d v. v }
  ask-Runs (refuses e) i = record { apply = λ d v. i d.store v }

  pub on_store-Runs :
      {P Q : Store → Type 0} (f : Store → Store)
      → ((s : Store) → P s → Q (f s))
      → Runs F P (on_store f) (λ _. Q)
  unfolding on_store
  on_store-Runs f i = record { apply = λ d v. i d.store v }

  pub on_runner-Runs :
      {P : Store → Type 0} (f : RunningJobs → RunningJobs) → Runs F P (on_runner f) (λ _. P)
  unfolding on_runner
  on_runner-Runs f = record { apply = λ d v. v }

  pub emit-Runs : {P : Store → Type 0} (e : Effect) → Runs F P (emit e) (λ _. P)
  unfolding emit
  emit-Runs e = record { apply = λ d v. v }
