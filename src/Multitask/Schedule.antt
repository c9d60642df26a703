-- ===== src/Multitask/Schedule.antt =====
-- The scheduler: which task gets the processor, and that the search for it ends.
use james_os.Prelude.{
  ℕ, suc, ◌+◌, ◌-◌, ◌<◌, ◌≡◌, refl, sym, ◌∙◌, ap, List, [], ◌∷◌, ◌++◌, Option, none, some, ◌==◌,
  if◌then◌else◌, arith, length, Bool-cases, inl, inr,
}
use james_os.Multitask.{Tcb, is_ready, next_task, search_loop}
use james_os.Multitask.Tasks.{Below, total, passes, has-le, passes-has}

-- The pid of the first ready task.
unfoldable pub first_ready : List Tcb → Option ℕ
first_ready [] = none
first_ready (t ∷ ts) = let rest = first_ready ts in if is_ready t.state then some t.pid else rest

unfoldable pub or_else : Option ℕ → Option ℕ → Option ℕ
or_else none b = b
or_else (some a) b = some a

first_ready-append :
    (xs ys : List Tcb) → first_ready (xs ++ ys) ≡ or_else (first_ready xs) (first_ready ys)
unfolding first_ready or_else
first_ready-append [] ys = refl
first_ready-append (x ∷ xs) ys = ground (arith, first_ready-append xs ys)

-- The search goes through the rest of the chain.
search_loop-rest :
    (fuel : ℕ) (head next : List Tcb)
    → search_loop (length next + fuel) head next
      ≡ or_else (first_ready next) (search_loop fuel head [])
unfolding search_loop first_ready or_else
search_loop-rest fuel head [] = ap (λ n. search_loop n head []) (omega arith)
search_loop-rest fuel head (t ∷ ts) =
    ap (λ n. search_loop n head (t ∷ ts)) e ∙ ground (arith, search_loop-rest fuel head ts)
  where
    e : suc (length ts) + fuel ≡ suc (length ts + fuel)
    e = omega arith

search_loop-again : (head : List Tcb) → search_loop (length head) head [] ≡ first_ready head
unfolding search_loop first_ready or_else
search_loop-again [] = refl
search_loop-again (h ∷ hs) = ground (arith, past)
  where
    e : length hs + 0 ≡ length hs
    e = omega arith

    past : search_loop (length hs) (h ∷ hs) hs ≡ or_else (first_ready hs) none
    past = ap (λ n. search_loop n (h ∷ hs) hs) (sym e) ∙ search_loop-rest 0 (h ∷ hs) hs

-- From the task after the current one on, once round the chain.
pub search_loop-first :
    (head next : List Tcb)
    → search_loop (length next + length head) head next ≡ first_ready (next ++ head)
search_loop-first head next =
    search_loop-rest (length head) head next
    ∙ ap (or_else (first_ready next)) (search_loop-again head)
    ∙ sym (first_ready-append next head)

pub first_ready-total :
    (ts : List Tcb) → 0 < total is_ready ts → (p : ℕ) × (first_ready ts ≡ some p)
unfolding first_ready total
first_ready-total [] h = absurd (omega arith)
first_ready-total (t ∷ ts) h = elim (Bool-cases (is_ready t.state)) [
  | inl here ↦ (t.pid, rw here refl)
  | inr other ↦ rw other (first_ready-total ts (ground (arith, other, h)))
]

pub first_ready-passes :
    (ts : List Tcb) (n p : ℕ) → Below n ts → first_ready ts ≡ some p → passes is_ready p ts ≡ 1
unfolding first_ready passes
first_ready-passes [] n p h e = ground arith
first_ready-passes (t ∷ ts) n p h e = elim (Bool-cases (is_ready t.state)) [
  | inl here ↦ ground (arith, here, e)
  | inr other ↦
      let ih = first_ready-passes ts (t.pid - 1) p h.2 (rw other at e) in
      ground (arith, ih, has-le p (t.pid - 1) ts h.2 (passes-has is_ready p ts ih))
]

-- The rest of the chain has the tasks of the chain.
next_task-passes :
    (c : ℕ) (ts : List Tcb) (n p : ℕ)
    → Below n ts
    → first_ready (next_task c ts) ≡ some p
    → passes is_ready p ts ≡ 1
unfolding next_task passes first_ready
next_task-passes c [] n p h e = ground (arith, e)
next_task-passes c (t ∷ ts) n p h e =
    let tail : passes is_ready p ts ≡ 1 = elim (Bool-cases (t.pid == c)) [
      | inl here ↦ first_ready-passes ts (t.pid - 1) p h.2 (rw here at e)
      | inr other ↦ next_task-passes c ts (t.pid - 1) p h.2 (rw other at e)
    ] in
    ground (arith, tail, has-le p (t.pid - 1) ts h.2 (passes-has is_ready p ts tail))

-- The order in which the scheduler looks at the tasks: from the one after `c`, once round.
unfoldable pub round_from : ℕ → List Tcb → List Tcb
round_from c ts = (if c == 0 then [] else next_task c ts) ++ ts

pub round_from-passes :
    (c : ℕ) (ts : List Tcb) (n p : ℕ)
    → Below n ts
    → first_ready (round_from c ts) ≡ some p
    → passes is_ready p ts ≡ 1
unfolding round_from or_else
round_from-passes c ts n p h e = elim (Bool-cases (c == 0)) [
  | inl idle' ↦ first_ready-passes ts n p h (rw idle' at e)
  | inr task ↦
      go (first_ready (next_task c ts)) refl
        (sym (first_ready-append (next_task c ts) ts) ∙ rw task at e)
]
  where
    go :
        (r : Option ℕ)
        → first_ready (next_task c ts) ≡ r
        → or_else (first_ready (next_task c ts)) (first_ready ts) ≡ some p
        → passes is_ready p ts ≡ 1
    go none e' h' = first_ready-passes ts n p h (rw e' at h')
    go (some q) e' h' = next_task-passes c ts n p h (e' ∙ rw e' at h')

pub round_from-total :
    (c : ℕ) (ts : List Tcb)
    → 0 < total is_ready ts
    → (p : ℕ) × (first_ready (round_from c ts) ≡ some p)
unfolding round_from or_else
round_from-total c ts h =
    let (q, e) = first_ready-total ts h in
    let before : List Tcb = if c == 0 then [] else next_task c ts in
    let (p, e') = go q (first_ready before) in
    (p, first_ready-append before ts ∙ ap (or_else (first_ready before)) e ∙ e')
  where
    go : (q : ℕ) (r : Option ℕ) → (p : ℕ) × (or_else r (some q) ≡ some p)
    go q none = (q, refl)
    go q (some x) = (x, refl)
