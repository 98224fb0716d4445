-- ===== src/Ecs/Recent.antt =====
-- The loops over the tasks that have stopped, against a definition without loops.
use aws_mcp_gateway.Base.{
  ℕ, zero, suc, ◌≤◌, ◌<◌, ◌≡◌, refl, sym, ap, Bool, true, false, not, Bool-cases, Option, or_else,
  String, List, [], ◌∷◌, ◌++◌, length, length-append, take, drop, map, keep, leb, leb→le, inl, inr,
  arith,
}
use mathlib.Core.List.{append_assoc, append-nil}
use aws_mcp_gateway.Errors.{Result, ok, thrown}
use aws_mcp_gateway.Js.Numbers.{Num}
use aws_mcp_gateway.Credentials.{AwsCredentials}
use aws_mcp_gateway.Cache.Keys.{Hashing}
use aws_mcp_gateway.Aws.{Io, Cloud, go_on, lift, defined, ◌>>=◌}
use aws_mcp_gateway.Ecs.Parse.{EcsStoppedTaskDiagnostic, RawTask, normalize_stopped_task}
use aws_mcp_gateway.Ecs.Requests.{Ecs, DescribeTasksResponse, describe_tasks}
use aws_mcp_gateway.Ecs.Tasks.{batches_of, batches}
use aws_mcp_gateway.Ecs.Reports.{add_stopped, stopped_in, is_too_old, parse_stopped_at}

take-append : {A : Type 0} (n : ℕ) (xs ys : List A) → length xs ≡ n → take n (xs ++ ys) ≡ xs
take-append zero [] ys h = refl
take-append zero (x ∷ xs) ys h = absurd (omega (arith, h))
take-append (suc n) [] ys h = absurd (omega (arith, h))
take-append (suc n) (x ∷ xs) ys h = ap (λ zs. x ∷ zs) (take-append n xs ys (omega (arith, h)))

take_all : {A : Type 0} (n : ℕ) (xs : List A) → length xs ≤ n → take n xs ≡ xs
take_all zero [] h = refl
take_all zero (x ∷ xs) h = absurd (omega (arith, h))
take_all (suc n) [] h = refl
take_all (suc n) (x ∷ xs) h = ap (λ zs. x ∷ zs) (take_all n xs (omega (arith, h)))

drop_all : {A : Type 0} (n : ℕ) (xs : List A) → length xs ≤ n → drop n xs ≡ []
drop_all zero [] h = refl
drop_all zero (x ∷ xs) h = absurd (omega (arith, h))
drop_all (suc n) [] h = refl
drop_all (suc n) (x ∷ xs) h = drop_all n xs (omega (arith, h))

batches-nil : (fuel : ℕ) → batches fuel [] ≡ []
unfolding batches
batches-nil zero = refl
batches-nil (suc fuel) = refl

-- up to 100 tasks make one batch
batches_of-single :
    (arn : String) (arns : List String)
    → length (arn ∷ arns) ≤ 100
    → batches_of (arn ∷ arns) ≡ (arn ∷ arns) ∷ []
unfolding batches_of batches
batches_of-single arn arns h =
    rw (take_all 100 (arn ∷ arns) h)
      (rw (drop_all 100 (arn ∷ arns) h) (rw (batches-nil (length arns)) refl))

keep-cons_true :
    {A : Type 0} (p : A → Bool) (x : A) (xs : List A) → p x ≡ true → keep p (x ∷ xs) ≡ x ∷ keep p xs
keep-cons_true p x xs h = rw (h, keep)

keep-cons_false :
    {A : Type 0} (p : A → Bool) (x : A) (xs : List A) → p x ≡ false → keep p (x ∷ xs) ≡ keep p xs
keep-cons_false p x xs h = rw (h, keep)

module _ (parse_date : String → Option Num) (cutoff : Num) where
  -- the task has not stopped before the time, as far as it tells
  abbrev pub is_recent : RawTask → Bool
  is_recent task = not (is_too_old (parse_stopped_at parse_date task.stopped_at) cutoff)

  add_stopped-eq-take :
      (limit : ℕ) (found : List EcsStoppedTaskDiagnostic) (tasks : List RawTask)
      → length found < limit
      → add_stopped parse_date cutoff limit found tasks
        ≡ take limit (found ++ map normalize_stopped_task (keep is_recent tasks))
  unfolding add_stopped
  add_stopped-eq-take limit found [] h =
      rw (append-nil found) (sym (take_all limit found (omega (arith, h))))
  add_stopped-eq-take limit found (task ∷ tasks) h =
      let next = normalize_stopped_task task in
      let rest = map normalize_stopped_task (keep is_recent tasks) in
      let longer = length-append found (next ∷ []) in
      elim (Bool-cases (is_too_old (parse_stopped_at parse_date task.stopped_at) cutoff)) [
        | inl old ↦
            rw (old, add_stopped)
              (rw (keep-cons_false is_recent task tasks (rw old refl))
                (add_stopped-eq-take limit found tasks h))
        | inr fresh ↦
            rw (fresh, add_stopped)
              (rw (keep-cons_true is_recent task tasks (rw fresh refl)) (
                rw (← append_assoc found (next ∷ []) rest)
                  (elim (Bool-cases (leb limit (length (found ++ next ∷ [])))) [
                    | inl full ↦ rw full (
                        sym (
                          take-append limit (found ++ next ∷ []) rest
                            (omega (arith, h, longer, leb→le _ _ full))))
                    | inr short ↦ rw short (
                        add_stopped-eq-take limit (found ++ next ∷ []) tasks
                          (ground (arith, longer)))
                  ])))
      ]

go_on-congr :
    {E A B : Type 0} (end : Result A × Cloud E) (f g : A → Io E B)
    → ((a : A) (s : Cloud E) → f a s ≡ g a s)
    → go_on end f ≡ go_on end g
go_on-congr (ok a, s) f g h = h a s
go_on-congr (thrown e, s) f g h = refl

module _ (ecs : Ecs) (hashing : Hashing) {E : Type 0} (parse_date : String → Option Num)
    (cluster region : String) (credentials : AwsCredentials) (cutoff : Num) (limit : ℕ) where
  -- what is made of the response on the only batch
  abbrev pub first_recent : Option DescribeTasksResponse → Io E (List EcsStoppedTaskDiagnostic)
  first_recent answer = do
    response ← lift (defined answer)
    lift (
        ok (
          take limit (
            map normalize_stopped_task
              (keep (is_recent parse_date cutoff) (or_else response.tasks [])))))

  -- For one to 100 tasks and a limit above 0, the two loops over batches and tasks, which stop at the limit, do
  -- what a program without loops does: one request describes all the tasks, and of its response the tasks that did
  -- not stop before the time are handed on, in their order and at most as many as the limit.
  pub stopped_in-eq-first_recent :
      (arn : String) (arns : List String) (s : Cloud E)
      → length (arn ∷ arns) ≤ 100
      → 0 < limit
      → stopped_in ecs hashing parse_date cluster region credentials cutoff limit []
          (batches_of (arn ∷ arns))
          s
        ≡ (describe_tasks ecs region credentials cluster (arn ∷ arns) >>= first_recent) s
  unfolding stopped_in
  stopped_in-eq-first_recent arn arns s h pos = rw (batches_of-single arn arns h) (
      go_on-congr (describe_tasks ecs region credentials cluster (arn ∷ arns) s) _ first_recent
        (λ answer s1.
          go_on-congr (defined answer, s1) _ _
            (λ response s2.
              let tasks = or_else response.tasks [] in
              rw (add_stopped-eq-take parse_date cutoff limit [] tasks pos)
                (elim (Bool-cases (
                  leb limit (
                    length (
                      take limit (
                        map normalize_stopped_task (keep (is_recent parse_date cutoff) tasks)))))) [
                          | inl full ↦ rw full refl
                          | inr short ↦ rw short refl
                        ]))))
