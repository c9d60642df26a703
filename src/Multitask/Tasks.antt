-- ===== src/Multitask/Tasks.antt =====
-- Counting the tasks of a chain by their state, and what a write of one task changes.
use james_os.Prelude.{
  ℕ, ◌+◌, ◌-◌, ◌≤◌, ◌<◌, ◌≡◌, ◌≢◌, refl, sym, ap, List, [], ◌∷◌, Bool, true, false, some, ◌==◌,
  ==→eq, if◌then◌else◌, ◌&&◌, ◌||◌, arith, Bool-cases, inl, inr,
}
use mathlib.Core.Path.{subst}
use james_os.Multitask.{
  TaskState, ready_to_run, Tcb, is_ready, is_running, with_state, search_task, update_task,
  is_terminated, remove_terminated,
}

-- The pids fall along the chain, from `n` at most, and none is 0.
abbrev pub Below : ℕ → List Tcb → Type 0
Below n [] = Unit
Below n (t ∷ ts) = (0 < t.pid) × (t.pid ≤ n) × Below (t.pid - 1) ts

-- How many tasks have a state that passes, whether a task is in the chain, and whether it is and
-- passes.
unfoldable pub total : (TaskState → Bool) → List Tcb → ℕ
total test [] = 0
total test (t ∷ ts) = (if test t.state then 1 else 0) + total test ts

unfoldable pub has : ℕ → List Tcb → Bool
has p [] = false
has p (t ∷ ts) = (t.pid == p) || has p ts

unfoldable pub passes : (TaskState → Bool) → ℕ → List Tcb → ℕ
passes test p [] = 0
passes test p (t ∷ ts) = if t.pid == p then (if test t.state then 1 else 0) else passes test p ts

pub has-le : (p n : ℕ) (ts : List Tcb) → Below n ts → has p ts ≡ true → (0 < p) × (p ≤ n)
unfolding has
has-le p n [] h e = absurd (ground (arith, e))
has-le p n (t ∷ ts) h e = elim (Bool-cases (t.pid == p)) [
  | inl here ↦ (omega (arith, h.0, ==→eq _ _ here), omega (arith, h.1, ==→eq _ _ here))
  | inr other ↦
      let tail : has p ts ≡ true = ground (arith, other, e) in
      let ih = has-le p (t.pid - 1) ts h.2 tail in (ih.0, omega (arith, ih.1, h.1))
]

pub Below-update :
    (p : ℕ) (f : Tcb → Tcb) (ts : List Tcb) (n : ℕ)
    → ((t : Tcb) → (f t).pid ≡ t.pid)
    → Below n ts
    → Below n (update_task p f ts)
unfolding update_task
Below-update p f [] n keeps h = tt
Below-update p f (t ∷ ts) n keeps h = elim (Bool-cases (t.pid == p)) [
  | inl here ↦
      subst (Below n) (sym (ap (λ b. if b then f t ∷ ts else t ∷ update_task p f ts) here))
        (rw (keeps t) h)
  | inr other ↦
      subst (Below n) (sym (ap (λ b. if b then f t ∷ ts else t ∷ update_task p f ts) other))
        (h.0, h.1, Below-update p f ts (t.pid - 1) keeps h.2)
]

pub has-update :
    (p q : ℕ) (f : Tcb → Tcb) (ts : List Tcb)
    → ((t : Tcb) → (f t).pid ≡ t.pid)
    → has q (update_task p f ts) ≡ has q ts
unfolding has update_task
has-update p q f [] keeps = refl
has-update p q f (t ∷ ts) keeps = ground (arith, has-update p q f ts keeps, keeps t)

pub total-update :
    (test : TaskState → Bool) (p : ℕ) (s : TaskState) (ts : List Tcb)
    → total test (update_task p (with_state s) ts) + passes test p ts
      ≡ total test ts + (if has p ts && test s then 1 else 0)
unfolding total has passes update_task
total-update test p s [] = refl
total-update test p s (t ∷ ts) = ground (arith, total-update test p s ts)

pub passes-update :
    (test : TaskState → Bool) (p q : ℕ) (s : TaskState) (ts : List Tcb)
    → passes test q (update_task p (with_state s) ts)
      ≡ (if p == q then (if has p ts && test s then 1 else 0) else passes test q ts)
unfolding has passes update_task
passes-update test p q s [] = ground arith
passes-update test p q s (t ∷ ts) = ground (arith, passes-update test p q s ts)

pub passes-le : (test : TaskState → Bool) (p : ℕ) (ts : List Tcb) → passes test p ts ≤ total test ts
unfolding total passes
passes-le test p [] = omega arith
passes-le test p (t ∷ ts) = ground (arith, passes-le test p ts)

pub passes_exclusive : (p : ℕ) (ts : List Tcb) → passes is_ready p ts + passes is_running p ts ≤ 1
unfolding passes
passes_exclusive p [] = omega arith
passes_exclusive p (t ∷ ts) = ground (arith, passes_exclusive p ts)

pub search_task-update :
    (p q : ℕ) (f : Tcb → Tcb) (ts : List Tcb)
    → ((t : Tcb) → (f t).pid ≡ t.pid)
    → p ≢ q
    → search_task q (update_task p f ts) ≡ search_task q ts
unfolding search_task update_task
search_task-update p q f [] keeps ne = refl
search_task-update p q f (t ∷ ts) keeps ne =
    ground (arith, search_task-update p q f ts keeps ne, keeps t)

pub passes-has :
    (test : TaskState → Bool) (p : ℕ) (ts : List Tcb) → passes test p ts ≡ 1 → has p ts ≡ true
unfolding has passes
passes-has test p [] e = ground arith
passes-has test p (t ∷ ts) e = ground (arith, passes-has test p ts)

-- No more tasks can run than there are pids.
pub total-le : (n : ℕ) (ts : List Tcb) → Below n ts → total is_ready ts + total is_running ts ≤ n
unfolding total
total-le n [] h = omega arith
total-le n (t ∷ ts) h = ground (arith, total-le (t.pid - 1) ts h.2, one t.state)
  where
    one : (s : TaskState) → (if is_ready s then 1 else 0) + (if is_running s then 1 else 0) ≤ 1
    one s = ground arith

pub search_task-has :
    (p : ℕ) (ts : List Tcb) → has p ts ≡ true → (t : Tcb) × (search_task p ts ≡ some t)
unfolding has search_task
search_task-has p [] e = absurd (ground (arith, e))
search_task-has p (t ∷ ts) e = elim (Bool-cases (t.pid == p)) [
  | inl here ↦ (t, rw here refl)
  | inr other ↦ rw other (search_task-has p ts (ground (arith, other, e)))
]

pub search_task-passes :
    (test : TaskState → Bool) (p : ℕ) (ts : List Tcb) (t : Tcb)
    → search_task p ts ≡ some t
    → (has p ts ≡ true) × (passes test p ts ≡ (if test t.state then 1 else 0))
unfolding has passes search_task
search_task-passes test p [] t e = ground arith
search_task-passes test p (u ∷ ts) t e = elim (Bool-cases (u.pid == p)) [
  | inl here ↦ rw here ground arith
  | inr other ↦ rw other (search_task-passes test p ts t (rw other at e))
]

-- What the scheduler does to the task that it takes the processor from.
abbrev pub demote : Tcb → Tcb
demote t = if is_running t.state then with_state ready_to_run t else t

pub update-demote :
    (p : ℕ) (ts : List Tcb)
    → update_task p demote ts
      ≡ (if passes is_running p ts == 1 then update_task p (with_state ready_to_run) ts else ts)
unfolding passes update_task
update-demote p [] = refl
update-demote p (t ∷ ts) = ground (arith, update-demote p ts)

-- A write that keeps the pid and the state changes no count.
pub update-counts :
    (test : TaskState → Bool) (p q : ℕ) (f : Tcb → Tcb) (ts : List Tcb)
    → ((t : Tcb) → (f t).pid ≡ t.pid)
    → ((t : Tcb) → (f t).state ≡ t.state)
    → (total test (update_task p f ts) ≡ total test ts)
      × (passes test q (update_task p f ts) ≡ passes test q ts)
unfolding total passes update_task
update-counts test p q f [] keeps same = (refl, refl)
update-counts test p q f (t ∷ ts) keeps same =
    let (a, b) = update-counts test p q f ts keeps same in
    (
      ground (arith, a, keeps t, same t, ap test (same t)),
      ground (arith, b, keeps t, same t, ap test (same t)),
    )

-- Taking a terminated task out of the chain.
pub Below-le : (ts : List Tcb) (m n : ℕ) → m ≤ n → Below m ts → Below n ts
Below-le [] m n le h = tt
Below-le (t ∷ ts) m n le h = (h.0, omega (arith, h.1), h.2)

pub remove-Below : (ts : List Tcb) (n : ℕ) → Below n ts → Below n (remove_terminated ts).0
unfolding remove_terminated
remove-Below [] n h = tt
remove-Below (t ∷ ts) n h =
    let rest = remove_terminated ts in
    let out : Bool → List Tcb × Bool = λ b. if b then (ts, true) else (t ∷ rest.0, rest.1) in
    elim (Bool-cases (is_terminated t.state)) [
      | inl gone ↦
          subst (λ b. Below n (out b).0) (sym gone)
            (Below-le ts (t.pid - 1) n (omega (arith, h.1)) h.2)
      | inr kept ↦
          subst (λ b. Below n (out b).0) (sym kept) (h.0, h.1, remove-Below ts (t.pid - 1) h.2)
    ]

pub remove-counts :
    (ts : List Tcb)
    → (total is_ready (remove_terminated ts).0 ≡ total is_ready ts)
      × (total is_running (remove_terminated ts).0 ≡ total is_running ts)
unfolding total remove_terminated
remove-counts [] = (refl, refl)
remove-counts (t ∷ ts) = let (a, b) = remove-counts ts in (ground (arith, a), ground (arith, b))

pub remove-passes :
    (ts : List Tcb) (n p : ℕ)
    → Below n ts
    → passes is_running p ts ≡ 1
    → passes is_running p (remove_terminated ts).0 ≡ 1
unfolding passes remove_terminated
remove-passes [] n p b h = h
remove-passes (t ∷ ts) n p b h = ground (arith, h, remove-passes ts (t.pid - 1) p b.2)

-- No task has pid 0.
pub passes-zero : (n : ℕ) (ts : List Tcb) → Below n ts → passes is_running 0 ts ≡ 0
passes-zero n ts b = elim (Bool-cases (has 0 ts)) [
  | inl there ↦ absurd (omega (arith, has-le 0 n ts b there))
  | inr gone ↦ ground (arith, passes_exclusive 0 ts, passes-has is_running 0 ts, gone)
]
