-- ===== src/FaultInjector/Main/Kill.antt =====
-- services/fault-injector/app/main.py: what a kill answers.
use cloud_microservices.Prelude.{
  String, ◌≡◌, refl, ap, ◌∙◌, ◌⊎◌, inl, inr, true, false, ◌&&◌, some, [], arith, Result, ok, err,
  Bool-cases, Result-cases, is_ok,
}
use cloud_microservices.Floats.{Floats}
use cloud_microservices.Shared.Models.{FaultRequest, FaultResponse, kill, http_exception, unhandled}
use cloud_microservices.FaultInjector.Injector
use cloud_microservices.FaultInjector.Injector.{
  DockerError, not_found, api_error, other_error, Docker, DockerCall, InjectorError, docker_error,
  permission_error, containers_get, container_stop, container_start, FaultState, Outcome,
}
use cloud_microservices.FaultInjector.Main.{
  allowed_targets, normalise_target, Moment, inject_kill, responded, fault_response, serve,
}
use cloud_microservices.FaultInjector.Main.Safety.{is_listed}

module _ (d : Docker) where
  refused_cases :
      (t action : String) (e : DockerError)
      → ((m : String) × (e ≡ other_error m)
          × (Injector.refused d t action e ≡ err (docker_error m)))
        ⊎ ((o : Outcome) × (Injector.refused d t action e ≡ ok o) × (o.ok ≡ false))
  unfolding Injector.refused
  refused_cases t action not_found = inr (
    record { target = t; action = action; ok = false; detail = "container not found" },
    refl,
    refl,
  )
  refused_cases t action (api_error m) =
      inr (record { target = t; action = action; ok = false; detail = m }, refl, refl)
  refused_cases t action (other_error m) = inl (m, refl, refl)

  -- docker fails otherwise than by `NotFound` or `APIError`, with this message, when the container is looked up or
  -- when it is stopped
  abbrev pub FailsOtherwise : String → String → Type 0
  FailsOtherwise t m =
      (d.find t ≡ err (other_error m))
      ⊎ ((is_ok (d.find t) ≡ true) × (d.stop t 5 ≡ err (other_error m)))

  -- what the stop of a container answers
  abbrev IsStopped : String → Result InjectorError Outcome → Type 0
  IsStopped t r =
      ((m : String) × FailsOtherwise t m × (r ≡ err (docker_error m)))
      ⊎ ((o : Outcome) × (r ≡ ok o) × (o.ok ≡ (is_ok (d.find t) && is_ok (d.stop t 5))))

  stop_sync_cases : (t : String) → IsStopped t (Injector.stop_sync d t 5).0
  unfolding Injector.stop_sync
  stop_sync_cases t = elim (Result-cases (d.find t)) [
    | inr (e, f) ↦ elim (refused_cases t "stop" e) [
      | inl (m, o, r) ↦ inl (m, inl (f ∙ ap (λ x. err x) o), rw (Injector.stop_sync, f) r)
      | inr (o, r, n) ↦ inr (o, rw (Injector.stop_sync, f) r, rw f n)
    ]
    | inl (found, f) ↦ elim (Result-cases (d.stop t 5)) [
      | inr (e, g) ↦ elim (refused_cases t "stop" e) [
        | inl (m, o, r) ↦
            inl (m, inr (ap is_ok f, g ∙ ap (λ x. err x) o), rw (Injector.stop_sync, f, g) r)
        | inr (o, r, n) ↦ inr (o, rw (Injector.stop_sync, f, g) r, rw (f, g) n)
      ]
      | inl (_, g) ↦ inr (
        record { target = t; action = "stop"; ok = true; detail = "stopped" },
        rw (Injector.stop_sync, f) (rw g refl),
        rw f (rw g refl),
      )
    ]
  ]

  pub stop_listed :
      (t : String)
      → is_listed t ≡ true
      → Injector.stop d (some allowed_targets) t ≡ Injector.stop_sync d t 5
  unfolding Injector.stop
  stop_listed t h = ground arith

  pub stop_unlisted :
      (t : String)
      → is_listed t ≡ false
      → Injector.stop d (some allowed_targets) t ≡ (err permission_error, [])
  unfolding Injector.stop
  stop_unlisted t h = ground arith

module _ (fl : Floats) where
  open fl use {Float}

  -- A kill of a container that is not listed answers 403 and calls no docker. One that is listed lets an exception
  -- through only where docker has failed otherwise than by `NotFound` or `APIError`, with its message, and else answers
  -- that it was accepted exactly when the container was found and its stop did not fail.
  pub inject_kill_lem :
      (now : Moment) (req : FaultRequest Float) (state : FaultState Float)
      → let t = normalise_target req.target in
        ((is_listed t ≡ false)
          × (serve fl now (inject_kill req) state
              ≡ (err (http_exception 403 "not in allow-list"), state, [])))
        ⊎ ((is_listed t ≡ true)
            × (((message : String) × FailsOtherwise now.docker t message
                  × ((serve fl now (inject_kill req) state).0 ≡ err (unhandled message)))
                ⊎ ((resp : FaultResponse) × ((serve fl now (inject_kill req) state).0
                      ≡ ok (fault_response resp))
                    × (resp.target ≡ t)
                    × (resp.accepted
                        ≡ (is_ok (now.docker.find t) && is_ok (now.docker.stop t 5))))))
  unfolding serve
  inject_kill_lem now req state =
      let t = normalise_target req.target in
      elim (Bool-cases (is_listed t)) [
        | inl yes_listed ↦ inr (
          yes_listed,
          elim (stop_sync_cases now.docker t) [
            | inl (m, o, r) ↦
                inl (m, o, rw (stop_listed now.docker t yes_listed) (rw (r, responded) refl))
            | inr (o, r, n) ↦ inr (
              record {
                kind = kill;
                target = t;
                accepted = o.ok;
                detail = o.detail;
                timestamp = now.utcnow;
              },
              rw (stop_listed now.docker t yes_listed) (rw (r, responded) refl),
              refl,
              n,
            )
          ],
        )
        | inr unlisted ↦ inl (unlisted, rw (stop_unlisted now.docker t unlisted, responded) refl)
      ]
