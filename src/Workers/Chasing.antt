-- ===== src/Workers/Chasing.antt =====
-- The chase of a payment comes to an end.
use ticketing_app.Prelude.{
  ℕ, zero, suc, ◌+◌, ◌≤◌, ◌<◌, ◌≡◌, refl, sym, ap, ◌∙◌, Bool, true, false, Option, none, some, List,
  [], ◌∷◌, ◌++◌, ltb, ltb→lt, arith, inl, inr, Bool-cases, length, drop,
}
use ticketing_app.Schema.{Payment, is_pending}
use ticketing_app.Store.{Result, ok, err}
use ticketing_app.Store.Exec.{World, schedule_reconcile, pure, continue, call_when}
use ticketing_app.Payments.Settlement.{SettlementResult, Outside}
use ticketing_app.Payments.Apply.{apply_settlement}
use ticketing_app.Workers.Reconcile.{
  retry_scheduled, retry, reconciled, settle_queried, after_query, reconcile_found, reconcile,
  by_query, is_pending_outcome,
}
use ticketing_app.Workers.Queued.{Job, jobs, jobs-append, append-nil, AddsNone-apply_settlement}

-- The jobs that have come into the queue from one state to a later one.
abbrev pub new_jobs : World → World → List Job
new_jobs w w' = drop (length (jobs w.calls)) (jobs w'.calls)

-- The worker on its queue: it runs the first job, and what that job schedules comes behind the
-- others. What is outside may answer each attempt differently. The fuel counts the jobs that are
-- run; what is returned are those that are left.
unfoldable pub chase : (ℕ → Outside) → ℕ → List Job → ℕ → World → List Job × World
chase outside zero queue now w = (queue, w)
chase outside (suc fuel) [] now w = ([], w)
chase outside (suc fuel) (j ∷ queue) now w =
    let w' = (reconcile (outside j.attempt) j.payment_id j.attempt now w).1 in
    chase outside fuel (queue ++ new_jobs w w') now w'

-- What one job may schedule: nothing, or one job with the next attempt, up to the fifth.
data Schedules (attempt : ℕ) (before : List Job) (after : List Job) : Type 0 where
  nothing : after ≡ before → Schedules attempt before after
  next_attempt :
      (id : ℕ)
      → after ≡ before ++ record { payment_id = id; attempt = suc attempt } ∷ []
      → attempt < 5
      → Schedules attempt before after

scheduled :
    (up : Bool) (id attempt : ℕ) (w : World)
    → attempt < 5
    → Schedules attempt (jobs w.calls) (
        jobs
          (continue
            (call_when up (schedule_reconcile id (suc attempt)) w).0
            (call_when up (schedule_reconcile id (suc attempt)) w).1
            (λ _. pure retry_scheduled)).1.calls)
scheduled true id attempt w early =
    next_attempt id (jobs-append w.calls (schedule_reconcile id (suc attempt) ∷ [])) early
scheduled false id attempt w early = nothing refl

retry-Schedules :
    (id attempt : ℕ) (w : World)
    → Schedules attempt (jobs w.calls) (jobs (retry id attempt w).1.calls)
unfolding retry
retry-Schedules id attempt w = elim (Bool-cases (ltb attempt 5)) [
  | inl early ↦ rw early (scheduled w.redis_up id attempt w (ltb→lt attempt 5 early))
  | inr late ↦ rw late (nothing refl)
]

continued :
    {A B : Type 0} (r : Result A) (w : World) (f : A → B) → (continue r w (λ a. pure (f a))).1 ≡ w
continued (ok a) w f = refl
continued (err e) w f = refl

module _ (outside : Outside) (attempt now : ℕ) where
  after_query-Schedules :
      (p : Payment) (r : Option SettlementResult) (w : World)
      → Schedules attempt (jobs w.calls) (jobs (after_query outside p attempt now r w).1.calls)
  unfolding after_query settle_queried
  after_query-Schedules p none w = retry-Schedules p.id attempt w
  after_query-Schedules p (some r) w = elim (Bool-cases (is_pending_outcome r.outcome)) [
    | inl early ↦ rw early (retry-Schedules p.id attempt w)
    | inr late ↦ rw late (
        nothing (
          ap (λ (v : World). jobs v.calls)
            (continued (apply_settlement outside r by_query now w).0
              (apply_settlement outside r by_query now w).1 (reconciled r.outcome))
          ∙ (AddsNone-apply_settlement outside r by_query now).at w))
  ]

  reconcile_found-Schedules :
      (p : Option Payment) (w : World)
      → Schedules attempt (jobs w.calls) (jobs (reconcile_found outside p attempt now w).1.calls)
  unfolding reconcile_found
  reconcile_found-Schedules none w = nothing refl
  reconcile_found-Schedules (some p) w = elim (Bool-cases (is_pending p.status)) [
    | inl waits ↦ rw waits (after_query-Schedules p (outside.query_status p.gateway_ref) w)
    | inr done ↦ rw done (nothing refl)
  ]

  reconcile-Schedules :
      (id : ℕ) (w : World)
      → Schedules attempt (jobs w.calls) (jobs (reconcile outside id attempt now w).1.calls)
  unfolding reconcile
  reconcile-Schedules id w = reconcile_found-Schedules _ w

drop-length : (xs ys : List Job) → drop (length xs) (xs ++ ys) ≡ ys
drop-length [] ys = refl
drop-length (x ∷ xs) ys = drop-length xs ys

-- With an empty queue, whatever fuel is left, nothing is left to do.
chase-empty :
    (outside : ℕ → Outside) (fuel now : ℕ) (w : World) → (chase outside fuel [] now w).0 ≡ []
unfolding chase
chase-empty outside zero now w = refl
chase-empty outside (suc fuel) now w = refl

-- Whatever the gateway answers to each attempt, and whatever state the payment is in or comes to,
-- the queue is empty after as many jobs as there are attempts left, and one more: each job
-- schedules at most the next attempt, and the fifth schedules none. Retries that BullMQ makes of a
-- job that throws are not counted.
pub chase-ends :
    (outside : ℕ → Outside) (fuel id attempt now : ℕ) (w : World)
    → 1 ≤ fuel
    → 6 ≤ fuel + attempt
    → (chase outside fuel (record { payment_id = id; attempt = attempt } ∷ []) now w).0 ≡ []
unfolding chase
chase-ends outside zero id attempt now w one enough = absurd (omega arith)
chase-ends outside (suc fuel) id attempt now w one enough =
    let w' = (reconcile (outside attempt) id attempt now w).1 in
    elim (reconcile-Schedules (outside attempt) attempt now id w) [
      | nothing e ↦
          let none_new : new_jobs w w' ≡ [] =
            ap (drop (length (jobs w.calls))) (e ∙ sym (append-nil (jobs w.calls)))
            ∙ drop-length (jobs w.calls) [] in
          ap (λ q. (chase outside fuel q now w').0) none_new ∙ chase-empty outside fuel now w'
      | next_attempt next_id e early ↦
          let one_new : new_jobs w w'
              ≡ record { payment_id = next_id; attempt = suc attempt } ∷ [] =
            ap (drop (length (jobs w.calls))) e ∙ drop-length (jobs w.calls) _ in
          ap (λ q. (chase outside fuel q now w').0) one_new
          ∙ chase-ends outside fuel next_id (suc attempt) now w' (omega arith) (omega arith)
    ]
