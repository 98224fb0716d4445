-- ===== src/Ecs/Pages.antt =====
-- The loop over the pages of a listing comes to an end, within its limit.
use aws_mcp_gateway.Base.{
  ℕ, zero, suc, ◌+◌, ◌≤◌, ◌<◌, ◌≡◌, sym, Bool, true, false, not, Bool-cases, Option, none, some,
  or_else, String, List, [], ◌∷◌, ◌++◌, length, length-append, take, ltb, ltb→lt, inl, inr, arith,
  subst, if◌then◌else◌, is_empty,
}
use aws_mcp_gateway.Errors.{Result, ok, thrown, invalid, thrown_ne_ok}
use aws_mcp_gateway.Js.Numbers.{Num, ratio, is_positive_integer}
use aws_mcp_gateway.Credentials.{AwsCredentials}
use aws_mcp_gateway.Aws.{defined, Io, Cloud, go_on}
use aws_mcp_gateway.Ecs.{bounded, validate_task_limit}
use aws_mcp_gateway.Ecs.Requests.{Ecs, ListTasksResponse}
use aws_mcp_gateway.Ecs.Tasks.{
  with_page, next_page, Collected, collected, unfinished, is_last, Step, last, more, step_of,
  follow, collect_from,
}

length-take-le : (n : ℕ) (xs : List String) → length (take n xs) ≤ n
length-take-le zero xs = omega arith
length-take-le (suc n) [] = omega arith
length-take-le (suc n) (x ∷ xs) = omega (arith, length-take-le n xs)

-- The loop came to an end: a call threw, or there are at most as many tasks as the limit.
abbrev pub IsEnded : ℕ → Result Collected → Type 0
IsEnded limit (ok (collected found)) = length found ≤ limit
IsEnded limit (ok unfinished) = ⊥
IsEnded limit (thrown e) = Unit

append-longer :
    (found : List String) (arn : String) (batch : List String)
    → length found < length (found ++ arn ∷ batch)
append-longer found arn batch =
    subst (λ n. length found < n) (sym (length-append found (arn ∷ batch))) (omega arith)

-- a step after which the loop goes on has found something
abbrev IsProgress : List String → Step → Type 0
IsProgress found (last found' token) = Unit
IsProgress found (more found' token) = length found < length found'

batch-IsProgress :
    (found : List String) (token : Option String) (batch : List String)
    → IsProgress found
        (if is_last token batch then last (found ++ batch) token else more (found ++ batch) token)
unfolding is_last
batch-IsProgress found none batch = tt
batch-IsProgress found (some token) [] = tt
batch-IsProgress found (some token) (arn ∷ batch) =
    elim (is_empty token)
      as (λ b. IsProgress found (
        if b
        then last (found ++ arn ∷ batch) (some token)
        else more (found ++ arn ∷ batch) (some token))) [
          | true ↦ tt
          | false ↦ append-longer found arn batch
        ]

step_of-IsProgress :
    (found : List String) (page : ListTasksResponse) → IsProgress found (step_of found page)
unfolding step_of
step_of-IsProgress found page = batch-IsProgress found page.next_token (or_else page.task_arns [])

go_on-IsEnded :
    {E A : Type 0} (limit : ℕ) (end : Result A × Cloud E) (next : A → Io E Collected)
    → ((a : A) (s : Cloud E) → IsEnded limit (next a s).0)
    → IsEnded limit (go_on end next).0
go_on-IsEnded limit (ok a, s) next h = h a s
go_on-IsEnded limit (thrown e, s) next h = tt

follow-IsEnded :
    {E : Type 0} (limit : ℕ) (found : List String)
    (rest : List String → Option String → Io E Collected) (step : Step) (s : Cloud E)
    → IsProgress found step
    → ((found' : List String) (token : Option String) (s' : Cloud E)
        → length found < length found'
        → IsEnded limit (rest found' token s').0)
    → IsEnded limit (follow limit rest step s).0
unfolding follow
follow-IsEnded limit found rest (last found' token) s h next = length-take-le limit found'
follow-IsEnded limit found rest (more found' token) s h next = next found' token s h

with_page-IsEnded :
    {E : Type 0} (limit : ℕ) (found : List String)
    (rest : List String → Option String → Io E Collected) (answer : Option ListTasksResponse)
    (s : Cloud E)
    → ((found' : List String) (token : Option String) (s' : Cloud E)
        → length found < length found'
        → IsEnded limit (rest found' token s').0)
    → IsEnded limit (with_page limit rest found answer s).0
unfolding with_page defined
with_page-IsEnded limit found rest none s next = tt
with_page-IsEnded limit found rest (some page) s next =
    follow-IsEnded limit found rest (step_of found page) s (step_of-IsProgress found page) next

module _ (ecs : Ecs) {E : Type 0} (region : String) (credentials : AwsCredentials)
    (cluster : String) (service_name desired_status : Option String) (limit : ℕ) where
  -- as many turns as are missing to the limit, and one more, are enough
  collect_from-IsEnded :
      (fuel : ℕ) (found : List String) (token : Option String) (s : Cloud E)
      → limit ≤ length found + fuel
      → IsEnded limit
          (collect_from ecs region credentials cluster service_name desired_status limit
            (suc fuel)
            found
            token
            s).0
  unfolding collect_from
  collect_from-IsEnded zero found token s h = elim (Bool-cases (ltb (length found) limit)) [
    | inl short ↦ absurd (omega (arith, h, ltb→lt _ _ short))
    | inr full ↦ rw (full, collect_from) (length-take-le limit found)
  ]
  collect_from-IsEnded (suc fuel) found token s h = elim (Bool-cases (ltb (length found) limit)) [
    | inl short ↦
        let rest : List String → Option String → Io E Collected =
          collect_from ecs region credentials cluster service_name desired_status limit
            (suc fuel) in
        rw (short, collect_from)
          (go_on-IsEnded limit
            (next_page ecs region credentials cluster service_name desired_status limit found token
              s)
            (with_page limit rest found)
            (λ answer s'. with_page-IsEnded limit found rest answer s' (λ found' token' s'' longer.
              collect_from-IsEnded fuel found' token' s'' (omega (arith, h, longer)))))
    | inr full ↦ rw (full, collect_from) (length-take-le limit found)
  ]

bounded-le :
    (most k : ℕ) {m : ℕ} (low high : String) (bad : Bool)
    → (if bad then thrown (invalid low) else if ltb most k then thrown (invalid high) else ok k)
      ≡ ok m
    → m ≤ most
bounded-le most k low high true h = absurd (thrown_ne_ok h)
bounded-le most k low high false h = ground arith

validate_task_limit-le : (limit : Option Num) {n : ℕ} → validate_task_limit limit ≡ ok n → n ≤ 100
unfolding validate_task_limit bounded
validate_task_limit-le limit h =
    bounded-le 100 _ _ _ (not (is_positive_integer (or_else limit (ratio 100 0)))) h

-- When the limit of a request for tasks is accepted, the loop over the pages of the listing comes to an end within
-- one turn more than the limit, whatever ECS answers and however many pages there are: a call throws, or the
-- loop returns at most as many tasks as the limit, which is at most 100.
pub collect_task_arns-IsEnded :
    (ecs : Ecs) {E : Type 0} (region : String) (credentials : AwsCredentials) (cluster : String)
    (service_name desired_status : Option String) (limit : Option Num) (n : ℕ) (s : Cloud E)
    → validate_task_limit limit ≡ ok n
    → IsEnded n
        (collect_from ecs region credentials cluster service_name desired_status n
          (suc n)
          []
          none
          s).0
      × (n ≤ 100)
collect_task_arns-IsEnded ecs region credentials cluster service_name desired_status limit n s h = (
  collect_from-IsEnded ecs region credentials cluster service_name desired_status n n [] none s
      (omega arith),
  validate_task_limit-le limit h,
)
