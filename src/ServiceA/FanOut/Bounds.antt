-- ===== src/ServiceA/FanOut/Bounds.antt =====
-- services/service-a/app/worker.py: the semaphore of the fan-out.
use cloud_microservices.Prelude.{
  total, total-set, ℕ, ◌+◌, ◌≤◌, ◌≡◌, refl, ap, ◌∙◌, some, List, [], ◌∷◌, map, arith, ℤ,
  at_least_one, get_elem?, set, Result,
}
use cloud_microservices.ServiceA.FanOut.{
  Status, waiting, in_flight, finished, Task, FanOut, Move, acquire, complete, start, step, run,
}
use cloud_microservices.ServiceA.FanOut.Moves.{step-acquire, step-complete, run-keeps}

abbrev pub weight : (Status → ℕ) → {E A : Type 0} → List (Task E A) → ℕ
weight w = total (λ t. w t.status)

abbrev pub flying : Status → ℕ
flying waiting = 0
flying in_flight = 1
flying finished = 0

module _ {E A : Type 0} where
  -- changing the status of one task changes the sum by what that task weighs
  pub weight-set :
      (w : Status → ℕ) (ts : List (Task E A)) (i : ℕ) (t t' : Task E A)
      → get_elem? ts i ≡ some t
      → weight w (set ts i t') + w t.status ≡ weight w ts + w t'.status
  weight-set w ts i t t' h = total-set (λ x. w x.status) ts i t t' h

  weight-start :
      (w : Status → ℕ) (meets : List (Result E A))
      → w waiting ≡ 0
      → weight w (map (λ r. record { meets = r; status = waiting }) meets) ≡ 0
  weight-start w [] h = refl
  weight-start w (r ∷ rs) h = omega (arith, weight-start w rs h)

  step-permits :
      (m : Move) (s s' : FanOut E A)
      → step m s ≡ some s'
      → s'.permits + weight flying s'.tasks ≡ s.permits + weight flying s.tasks
  unfolding step
  step-permits (acquire i) s s' h =
      let a = step-acquire i s s' h in
      let w = weight-set flying s.tasks i a.task (record a.task { status = in_flight }) a.found in
      rw a.eq (omega (arith, a.permits, w, ap flying a.status))
  step-permits (complete i) s s' h =
      let c = step-complete i s s' h in
      let w = weight-set flying s.tasks i c.task (record c.task { status = finished }) c.found in
      rw c.eq (omega (arith, w, ap flying c.status))

  -- However the event loop runs the tasks, the requests in flight never outnumber
  -- `max(1, concurrency)`, and the permits left are what is missing to that number.
  pub fan_out_bound :
      (concurrency : ℤ) (meets : List (Result E A)) (ms : List Move) (s : FanOut E A)
      → run ms (start concurrency meets) ≡ some s
      → (s.permits + weight flying s.tasks ≡ at_least_one concurrency)
        × (weight flying s.tasks ≤ at_least_one concurrency)
  fan_out_bound concurrency meets ms s h =
      let kept : s.permits + weight flying s.tasks ≡ at_least_one concurrency =
        run-keeps (λ t. t.permits + weight flying t.tasks ≡ at_least_one concurrency)
          (λ m t t' e p. step-permits m t t' e ∙ p) ms (start concurrency meets) s h
          (unfold start in omega (arith, weight-start flying meets refl)) in
      (kept, omega (arith, kept))
