-- ===== src/Runtime/Keeping.antt =====
-- Rules for the actions of the daemon that keep a property of the store, on the error paths too.
use slotd.Prelude.{Bool, true, false, Result, ok, err, diverges, SlotdError, Answer, if◌then◌else◌}
use slotd.Store.{Store}
use slotd.Runtime.State.{
  Daemon, RunningJobs, Effect, M, and_then, ◌>>=◌, ◌>>◌, pure, fail, lift, ask, read, on_store,
  store_call, store_run, get_runner, on_runner, emit,
}

-- What holds of a result, if there is one.
abbrev pub Post {ℓ} : {A : Type 0} → (A → Type ℓ) → Result A → Type ℓ
Post Q (ok a) = Q a
Post Q (err e) = Unit
Post Q diverges = Unit

module _ (P : Store → Type 0) where
  -- The action keeps `P` of the store.
  pub record Keeps {A : Type 0} (m : M A) : Type 0 where
    pub apply : (d : Daemon) → P d.store → P (m d).1.store

  and_then-Keeps :
      {A B : Type 0} (r : Result A × Daemon) (f : A → M B)
      → P r.1.store
      → ((a : A) → Keeps (f a))
      → P (and_then r f).1.store
  unfolding and_then
  and_then-Keeps (ok a, d) f v h = (h a).apply d v
  and_then-Keeps (err e, d) f v h = v
  and_then-Keeps (diverges, d) f v h = v

  -- A `do` block keeps `P` if its parts do.
  pub bind-Keeps :
      {A B : Type 0} {m : M A} {f : A → M B} → Keeps m → ((a : A) → Keeps (f a)) → Keeps (m >>= f)
  unfolding ◌>>=◌
  bind-Keeps {A} {B} {m} {f} h g = record { apply = λ d v. and_then-Keeps (m d) f (h.apply d v) g }

  -- The same, where the result of the first part is known to have `Q`.
  pub bind_with-Keeps :
      {A B : Type 0} {m : M A} {f : A → M B} (Q : A → Type 0)
      → Keeps m
      → ((d : Daemon) → Post Q (m d).0)
      → ((a : A) → Q a → Keeps (f a))
      → Keeps (m >>= f)
  unfolding ◌>>=◌ and_then
  bind_with-Keeps {A} {B} {m} {f} Q h q g = record {
    apply = λ d v. after (m d) (h.apply d v) (q d);
  }
    where
      after : (r : Result A × Daemon) → P r.1.store → Post Q r.0 → P (and_then r f).1.store
      after (ok a, d) v u = (g a u).apply d v
      after (err e, d) v u = v
      after (diverges, d) v u = v

  pub seq-Keeps : {B : Type 0} {m : M (Unit {0})} {n : M B} → Keeps m → Keeps n → Keeps (m >> n)
  unfolding ◌>>◌
  seq-Keeps {B} {m} {n} h g = record {
    apply = λ d v. and_then-Keeps (m d) (λ _. n) (h.apply d v) (λ _. g);
  }

  pub if-Keeps :
      {A : Type 0} (b : Bool) {m n : M A} → Keeps m → Keeps n → Keeps (if b then m else n)
  if-Keeps true h g = h
  if-Keeps false h g = g

  pub pure-Keeps : {A : Type 0} (a : A) → Keeps (pure a)
  unfolding pure
  pure-Keeps a = record { apply = λ d v. v }

  pub fail-Keeps : {A : Type 0} (e : SlotdError) → Keeps (fail {A = A} e)
  unfolding fail
  fail-Keeps e = record { apply = λ d v. v }

  pub lift-Keeps : {A : Type 0} (r : Result A) → Keeps (lift r)
  unfolding lift
  lift-Keeps r = record { apply = λ d v. v }

  pub ask-Keeps : {A : Type 0} (a : Answer A) → Keeps (ask a)
  unfolding ask
  ask-Keeps a = record { apply = λ d v. v }

  pub read-Keeps : {A : Type 0} (f : Store → A) → Keeps (read f)
  unfolding read
  read-Keeps f = record { apply = λ d v. v }

  pub get_runner-Keeps : Keeps get_runner
  unfolding get_runner
  get_runner-Keeps = record { apply = λ d v. v }

  pub on_runner-Keeps : (f : RunningJobs → RunningJobs) → Keeps (on_runner f)
  unfolding on_runner
  on_runner-Keeps f = record { apply = λ d v. v }

  pub emit-Keeps : (e : Effect) → Keeps (emit e)
  unfolding emit
  emit-Keeps e = record { apply = λ d v. v }

  pub on_store-Keeps : (f : Store → Store) → ((s : Store) → P s → P (f s)) → Keeps (on_store f)
  unfolding on_store
  on_store-Keeps f h = record { apply = λ d v. h d.store v }

  pub store_call-Keeps :
      {A : Type 0} (f : Store → Result A × Store)
      → ((s : Store) → P s → P (f s).1)
      → Keeps (store_call f)
  unfolding store_call
  store_call-Keeps f h = record { apply = λ d v. h d.store v }

  pub store_run-Keeps :
      {A : Type 0} (f : Store → A × Store) → ((s : Store) → P s → P (f s).1) → Keeps (store_run f)
  unfolding store_run
  store_run-Keeps f h = record { apply = λ d v. h d.store v }
