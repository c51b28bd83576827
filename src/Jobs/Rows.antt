-- ===== src/Jobs/Rows.antt =====
-- Rows of core_jobs: which job a key names, and how one statement changes the table.
use control_center.Common.{
  ℕ, ◌+◌, ◌≤◌, ◌<◌, ◌≡◌, refl, ◌⊎◌, inl, inr, Bool, true, false, some, List, [], ◌∷◌, arith,
  Option-cases,
}
use control_center.Jobs.Types.{Job, is_terminal}
use control_center.Jobs.Queue.{update_where, delete_where, first_where, has_id}
use control_center.Jobs.Worker.{eligible, pick}

abbrev pub Has : Job → List Job → Type 0
Has j [] = ⊥
Has j (x ∷ xs) = (x ≡ j) ⊎ Has j xs

-- Newest first, as AUTOINCREMENT numbers them: the primary key.
abbrev pub Below : ℕ → List Job → Type 0
Below n [] = Unit {0}
Below n (x ∷ xs) = (x.id < n) × Below x.id xs

-- How a job may change: what it was enqueued with stays, a terminal job stays as it is, the fence
-- never falls, it rises together with the attempts, and an attempt that is new is within the limit.
pub record Evolves (a b : Job) : Type 0 where
  pub same_id : b.id ≡ a.id
  pub same_plugin : b.plugin_id ≡ a.plugin_id
  pub same_name : b.name ≡ a.name
  pub same_args : b.args ≡ a.args
  pub same_limit : b.max_attempts ≡ a.max_attempts
  pub same_concurrency : b.concurrency ≡ a.concurrency
  pub same_priority : b.priority ≡ a.priority
  pub same_key : b.idempotency_key ≡ a.idempotency_key
  pub same_run_at : b.run_at ≡ a.run_at
  pub same_created_at : b.created_at ≡ a.created_at
  pub frozen : (is_terminal a.state ≡ false) ⊎ (b ≡ a)
  pub fences : a.fence_generation ≤ b.fence_generation
  pub bounded : (b.attempt ≤ b.max_attempts) ⊎ (b.attempt ≡ a.attempt)
  pub balance : b.attempt + a.fence_generation ≡ a.attempt + b.fence_generation

pub Evolves-refl : (a : Job) → Evolves a a
Evolves-refl a = ground arith

pub Evolves-trans : (a b c : Job) → Evolves a b → Evolves b c → Evolves a c
Evolves-trans a b c p q = ground arith

abbrev pub AllEvolve : List Job → List Job → Type 0
AllEvolve [] [] = Unit {0}
AllEvolve [] (y ∷ ys) = ⊥
AllEvolve (x ∷ xs) [] = ⊥
AllEvolve (x ∷ xs) (y ∷ ys) = Evolves x y × AllEvolve xs ys

-- The job is still there, as it has become.
abbrev pub Kept : Job → List Job → Type 0
Kept j ks = (k : Job) × Has k ks × Evolves j k

pub Kept-of_all : (j : Job) (xs ys : List Job) → AllEvolve xs ys → Has j xs → Kept j ys
Kept-of_all j [] ys a h = absurd h
Kept-of_all j (x ∷ xs) [] a h = absurd a
Kept-of_all j (x ∷ xs) (y ∷ ys) a (inl e) = (y, inl refl, rw (← e) (a.0))
Kept-of_all j (x ∷ xs) (y ∷ ys) a (inr h) =
    let (k, m, v) = Kept-of_all j xs ys a.1 h in (k, inr m, v)

pub AllEvolve-refl : (xs : List Job) → AllEvolve xs xs
AllEvolve-refl [] = tt
AllEvolve-refl (x ∷ xs) = (Evolves-refl x, AllEvolve-refl xs)

pub Below-Has : (n : ℕ) (j : Job) (js : List Job) → Below n js → Has j js → j.id < n
Below-Has n j [] b h = absurd h
Below-Has n j (x ∷ xs) b (inl e) = ground arith
Below-Has n j (x ∷ xs) b (inr h) = omega (arith, Below-Has x.id j xs b.1 h)

pub update_absent :
    (n id : ℕ) (f : Job → Job) (js : List Job)
    → Below n js
    → n ≤ id
    → update_where (has_id id) f js ≡ js
unfolding update_where
update_absent n id f [] b h = refl
update_absent n id f (x ∷ xs) b h = ground (arith, update_absent x.id id f xs b.1)

-- An update by primary key lets one job evolve, if it may become what the update writes.
pub evolve_one :
    (n : ℕ) (j : Job) (f : Job → Job) (js : List Job)
    → Below n js
    → Has j js
    → Evolves j (f j)
    → AllEvolve js (update_where (has_id j.id) f js)
unfolding update_where
evolve_one n j f [] b h v = tt
evolve_one n j f (x ∷ xs) b (inl e) v =
    rw (update_absent x.id j.id f xs b.1 (ground arith))
      (ground (arith, AllEvolve-refl xs, Evolves-refl x))
evolve_one n j f (x ∷ xs) b (inr h) v =
    ground (arith, Below-Has x.id j xs b.1 h, evolve_one x.id j f xs b.1 h v, Evolves-refl x)

-- An update under any condition, where each row that meets it may become what is written.
pub evolve_where :
    (p : Job → Bool) (f : Job → Job) (js : List Job)
    → ((j : Job) → p j ≡ true → Evolves j (f j))
    → AllEvolve js (update_where p f js)
unfolding update_where
evolve_where p f [] v = tt
evolve_where p f (x ∷ xs) v = (ground (arith, v x, Evolves-refl x), evolve_where p f xs v)

pub Below-of_all : (n : ℕ) (xs ys : List Job) → AllEvolve xs ys → Below n xs → Below n ys
Below-of_all n [] [] a b = tt
Below-of_all n [] (y ∷ ys) a b = absurd a
Below-of_all n (x ∷ xs) [] a b = absurd a
Below-of_all n (x ∷ xs) (y ∷ ys) a b = ground (arith, Below-of_all x.id xs ys a.1 b.1)

-- A deletion keeps every row that its condition spares, and the order of the keys.
pub Has-delete_where :
    (p : Job → Bool) (j : Job) (js : List Job) → Has j js → Has j (delete_where p js) ⊎ (p j ≡ true)
unfolding delete_where
Has-delete_where p j [] h = absurd h
Has-delete_where p j (x ∷ xs) (inl e) = ground arith
Has-delete_where p j (x ∷ xs) (inr h) = ground (arith, Has-delete_where p j xs h)

Below-weaken : (m n : ℕ) (js : List Job) → m ≤ n → Below m js → Below n js
Below-weaken m n [] h b = tt
Below-weaken m n (x ∷ xs) h b = (omega (arith, b.0), b.1)

pub Below-delete_where :
    (p : Job → Bool) (n : ℕ) (js : List Job) → Below n js → Below n (delete_where p js)
unfolding delete_where
Below-delete_where p n [] b = tt
Below-delete_where p n (x ∷ xs) b =
    let rest = Below-delete_where p x.id xs b.1 in
    ground (arith, rest, Below-weaken x.id n (delete_where p xs) (omega (arith, b.0)) rest)

pub first_where-Has :
    (p : Job → Bool) (j : Job) (js : List Job) → first_where p js ≡ some j → Has j js × (p j ≡ true)
unfolding first_where
first_where-Has p j [] h = cc
first_where-Has p j (x ∷ xs) h = ground (arith, first_where-Has p j xs)

-- The row that claimOne selects stands in the table and is eligible.
pub pick-Has :
    (now : ℕ) (all : List Job) (j : Job) (js : List Job)
    → pick now all js ≡ some j
    → Has j js × (eligible now all j ≡ true)
unfolding pick
pick-Has now all j [] h = cc
pick-Has now all j (x ∷ xs) h = elim (Option-cases (pick now all xs)) [
  | inl e ↦ ground arith
  | inr (k, e) ↦ ground (arith, pick-Has now all k xs e)
]
