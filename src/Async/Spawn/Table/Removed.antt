-- ===== src/Async/Spawn/Table/Removed.antt =====
-- src/async_/spawn/scheduler.rs: the tasks that leave the worker's table, and those that stay.
use ngx_rust.Prelude.{
  ℕ, zero, suc, ◌+◌, ◌-◌, ◌≡◌, refl, ◌∙◌, subst, true, Option, none, some, List, [], ◌∷◌, ◌==◌,
  if◌then◌else◌, arith, Bool-cases, inl, inr,
}
use ngx_rust.Async.Spawn.Table.{
  Table, position, init, last, swap_remove, take_task, taken_at, push_some, take_registered_tasks,
  take_completed,
}

-- How often a number occurs.
abbrev pub count : ℕ → List ℕ → ℕ
count d [] = 0
count d (x ∷ xs) = (if x == d then 1 else 0) + count d xs

count-init :
    (d x : ℕ) (xs : List ℕ)
    → count d (init (x ∷ xs)) + (if last x xs == d then 1 else 0) ≡ count d (x ∷ xs)
count-init d x [] = omega arith
count-init d x (y ∷ ys) = omega (arith, count-init d y ys)

position-zero : (c x : ℕ) (xs : List ℕ) → position c (x ∷ xs) ≡ some 0 → x ≡ c
position-zero c x xs h = by_rest (position c xs) h
  where
    by_rest :
        (r : Option ℕ)
        → (if x == c then some 0 else elim r [ none ↦ none | some i ↦ some (suc i) ]) ≡ some 0
        → x ≡ c
    by_rest none k = ground arith
    by_rest (some i) k = ground arith

position-suc :
    (c x j : ℕ) (xs : List ℕ) → position c (x ∷ xs) ≡ some (suc j) → position c xs ≡ some j
position-suc c x j xs h = by_rest (position c xs) h
  where
    by_rest :
        (r : Option ℕ)
        → (if x == c then some 0 else elim r [ none ↦ none | some i ↦ some (suc i) ]) ≡ some (suc j)
        → r ≡ some j
    by_rest none k = ground arith
    by_rest (some i) k = ground arith

position-none : (c : ℕ) (xs : List ℕ) → position c xs ≡ none → count c xs ≡ 0
position-none c [] h = refl
position-none c (x ∷ xs) h = by_rest (position c xs) h (position-none c xs)
  where
    by_rest :
        (r : Option ℕ)
        → (if x == c then some 0 else elim r [ none ↦ none | some i ↦ some (suc i) ]) ≡ none
        → (r ≡ none → count c xs ≡ 0)
        → (if x == c then 1 else 0) + count c xs ≡ 0
    by_rest none k rest = ground (arith, rest refl)
    by_rest (some i) k rest = absurd (ground arith)

count-swap_remove :
    (c d i : ℕ) (xs : List ℕ)
    → position c xs ≡ some i
    → count d (swap_remove i xs) + (if c == d then 1 else 0) ≡ count d xs
count-swap_remove c d i [] h = absurd (cc)
count-swap_remove c d zero (x ∷ []) h =
    subst (λ z. 0 + (if z == d then 1 else 0) ≡ (if x == d then 1 else 0) + 0)
      (position-zero c x [] h) (omega arith)
count-swap_remove c d (suc j) (x ∷ []) h = absurd (cc (position-suc c x j [] h))
count-swap_remove c d zero (x ∷ y ∷ ys) h =
    subst
      (λ z.
        (if last y ys == d then 1 else 0) + count d (init (y ∷ ys)) + (if z == d then 1 else 0)
        ≡ (if x == d then 1 else 0) + count d (y ∷ ys))
      (position-zero c x (y ∷ ys) h) (omega (arith, count-init d y ys))
count-swap_remove c d (suc j) (x ∷ y ∷ ys) h =
    omega (arith, count-swap_remove c d j (y ∷ ys) (position-suc c x j (y ∷ ys) h))

-- One task fewer of the control, where there was one.
take_task-count :
    (c d : ℕ) (t : Table)
    → (count d (take_task c t).1.tasks ≡ count d t.tasks - (if c == d then 1 else 0))
      × (count d (push_some (take_task c t).0 []) + count d (take_task c t).1.tasks
          ≡ count d t.tasks)
unfolding take_task
take_task-count c d t = by_position (position c t.tasks) refl
  where
    by_position :
        (r : Option ℕ)
        → position c t.tasks ≡ r
        → (count d (taken_at c r t).1.tasks ≡ count d t.tasks - (if c == d then 1 else 0))
          × (count d (push_some (taken_at c r t).0 []) + count d (taken_at c r t).1.tasks
              ≡ count d t.tasks)
    by_position none e =
        let nothing : (c == d) ≡ true → count d t.tasks ≡ 0 =
          λ same. subst (λ z. count z t.tasks ≡ 0) (ground arith) (position-none c t.tasks e) in
        (
          elim (Bool-cases (c == d)) [
            | inl same ↦ omega (arith, nothing same)
            | inr other ↦ rw other (omega arith)
          ],
          omega arith,
        )
    by_position (some i) e =
        let left = count-swap_remove c d i t.tasks e in (omega (arith, left), omega (arith, left))

push_some-count :
    (d : ℕ) (o : Option ℕ) (xs : List ℕ)
    → count d (push_some o xs) ≡ count d (push_some o []) + count d xs
push_some-count d none xs = omega arith
push_some-count d (some x) xs = omega arith

take_registered_tasks-count :
    (d : ℕ) (cs : List ℕ) (t : Table)
    → (count d (take_registered_tasks cs t).1.tasks ≡ count d t.tasks - count d cs)
      × (count d (take_registered_tasks cs t).0 + count d (take_registered_tasks cs t).1.tasks
          ≡ count d t.tasks)
unfolding take_registered_tasks
take_registered_tasks-count d [] t = (omega arith, omega arith)
take_registered_tasks-count d (c ∷ cs) t =
    let one = take_task-count c d t in
    let rest = take_registered_tasks-count d cs (take_task c t).1 in
    (
      omega (arith, one.0, rest.0),
      omega (
        arith,
        one.1,
        rest.1,
        push_some-count d (take_task c t).0 (take_registered_tasks cs (take_task c t).1).0,
      ),
    )

take_registered_tasks-completed :
    (cs : List ℕ) (t : Table) → (take_registered_tasks cs t).1.completed ≡ t.completed
unfolding take_registered_tasks take_task
take_registered_tasks-completed [] t = refl
take_registered_tasks-completed (c ∷ cs) t =
    take_registered_tasks-completed cs (take_task c t).1 ∙ by_position (position c t.tasks)
  where
    by_position : (r : Option ℕ) → (taken_at c r t).1.completed ≡ t.completed
    by_position none = refl
    by_position (some i) = refl

-- Reaping the completed tasks loses none and takes no other: the tasks that are taken and those that
-- are left are those that were there, each control has as many tasks fewer as it was reported, down to
-- none, and no report is left.
pub take_completed-count :
    (d : ℕ) (t : Table)
    → (count d (take_completed t).1.tasks ≡ count d t.tasks - count d t.completed)
      × (count d (take_completed t).0 + count d (take_completed t).1.tasks ≡ count d t.tasks)
      × ((take_completed t).1.completed ≡ [])
unfolding take_completed
take_completed-count d t =
    let counted = take_registered_tasks-count d t.completed (record t { completed = [] }) in
    (
      counted.0,
      counted.1,
      take_registered_tasks-completed t.completed (record t { completed = [] }),
    )
