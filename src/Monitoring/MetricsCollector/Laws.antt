-- ===== src/Monitoring/MetricsCollector/Laws.antt =====
-- monitoring/metrics_collector.py: what the files hold, and which services a snapshot shows.
use Prim.Native.String
use text.Mathlib.TextLemmas.{nil-append, append-nil, append_assoc}
use cloud_microservices.Prelude.{
  Result, ok, err, true, false, ◌⊎◌, sym, ap, ◌∙◌, String, ◌≡◌, refl, inl, inr, Bool, ◌||◌, Option,
  some, List, [], ◌∷◌, Result-cases, Bool-cases,
}
use cloud_microservices.Prelude.Dict.{Dict}
use cloud_microservices.Http.{Httpx}
use cloud_microservices.Orchestration.Targets.{ServiceTarget}
use cloud_microservices.Monitoring.MetricsCollector.{
  Payload, Disk, written, not_opened, output_cut, history_cut, CollectError, not_json, os_error,
  JsonDecodeError, Snapshot, Files, Round, scrape_all, write_outputs, collect,
}

module _ {J : Type 0} (hx : Httpx) (dumps_indent dumps : Snapshot J → String) where
  -- the lines of the history file for a row of snapshots
  unfoldable pub lines_of : List (Snapshot J) → String
  lines_of [] = ""
  lines_of (s ∷ ss) = String.◌++◌ (String.◌++◌ (dumps s) "\n") (lines_of ss)

  -- the text of the last snapshot, or the text before
  abbrev pub last_of : Option String → List (Snapshot J) → Option String
  last_of before [] = before
  last_of before (s ∷ ss) = last_of (some (dumps_indent s)) ss

  -- The history file has grown by one line for each snapshot, in their order, and by what a write that has failed may
  -- have left behind them, and nothing of it is lost.
  abbrev pub Keeps : {E : Type 0} → String → Files → E × Files × List (Snapshot J) → Type 0
  Keeps part files (outcome, files', snapshots) =
      files'.history ≡ String.◌++◌ files.history (String.◌++◌ (lines_of snapshots) part)

  -- Nothing is left behind the lines, and the output file holds the last snapshot, or what it held before if there is none.
  abbrev pub Wrote : {E : Type 0} → Files → E × Files × List (Snapshot J) → Type 0
  Wrote files (outcome, files', snapshots) =
      (files'.history ≡ String.◌++◌ files.history (lines_of snapshots))
      × (files'.output ≡ last_of files.output snapshots)

  module _ (one_shot : Bool) (targets : List ServiceTarget) where
    abbrev snapshot_of : Round J → Dict (Payload J) → Snapshot J
    snapshot_of round services = record { scraped_at = round.now; services = services }

    abbrev run : List (Round J) → Files → Result CollectError Bool × Files × List (Snapshot J)
    run = collect hx dumps_indent dumps one_shot targets

    -- a run with its files written, or one that the disk has ended
    abbrev pub Writes : Files → Result CollectError Bool × Files × List (Snapshot J) → Type 0
    Writes files out =
        Wrote files out ⊎ ((part : String) × (out.0 ≡ err os_error) × Keeps part files out)

    -- one round that is not the last, and one that is
    round_goes :
        (round : Round J) (rounds : List (Round J)) (files : Files) (services : Dict (Payload J))
        → scrape_all hx targets round.get ≡ ok services
        → round.disk ≡ written
        → (one_shot || round.stop_set) ≡ false
        → let snapshot = snapshot_of round services in
          let rest = run rounds (write_outputs hx dumps_indent dumps written snapshot files).0 in
          run (round ∷ rounds) files ≡ (rest.0, rest.1, snapshot ∷ rest.2)
    unfolding collect
    round_goes round rounds files services e d goes = rw (collect, e, d, goes) refl

    round_ends :
        (round : Round J) (rounds : List (Round J)) (files : Files) (services : Dict (Payload J))
        → scrape_all hx targets round.get ≡ ok services
        → round.disk ≡ written
        → (one_shot || round.stop_set) ≡ true
        → let snapshot = snapshot_of round services in
          run (round ∷ rounds) files
          ≡ (ok true, (write_outputs hx dumps_indent dumps written snapshot files).0, snapshot ∷ [])
    unfolding collect
    round_ends round rounds files services e d ended = rw (collect, e, d, ended) refl

    round_fails :
        (disk : Disk) (round : Round J) (rounds : List (Round J)) (files : Files)
        (services : Dict (Payload J))
        → scrape_all hx targets round.get ≡ ok services
        → round.disk ≡ disk
        → let out = write_outputs hx dumps_indent dumps disk (snapshot_of round services) files in
          out.1 ≡ false → run (round ∷ rounds) files ≡ (err os_error, out.0, [])
    unfolding collect
    round_fails disk round rounds files services e d fails = rw (collect, e, d, fails) refl

    round_raises :
        (round : Round J) (rounds : List (Round J)) (files : Files) (exc : JsonDecodeError)
        → scrape_all hx targets round.get ≡ err exc
        → run (round ∷ rounds) files ≡ (err (not_json exc), files, [])
    unfolding collect
    round_raises round rounds files exc e = rw (collect, e) refl

    -- a run that the disk has ended, whatever has been written of its last round
    fails :
        (disk : Disk) (part : String) (round : Round J) (rounds : List (Round J)) (files : Files)
        (services : Dict (Payload J))
        → scrape_all hx targets round.get ≡ ok services
        → round.disk ≡ disk
        → let out = write_outputs hx dumps_indent dumps disk (snapshot_of round services) files in
          out.1 ≡ false
          → out.0.history ≡ String.◌++◌ files.history part
          → Writes files (run (round ∷ rounds) files)
    unfolding lines_of
    fails disk part round rounds files services e d n h =
        rw (round_fails disk round rounds files services e d n)
          (inr (part, refl, h ∙ ap (String.◌++◌ files.history) (sym (nil-append part))))

    -- However the collection goes and ends, its history file has grown by the lines of its snapshots and its output file
    -- holds the last of them; where the disk has ended it, there may be a part of a line behind these.
    pub collect-Writes : (rounds : List (Round J)) (files : Files) → Writes files (run rounds files)
    unfolding collect lines_of write_outputs
    collect-Writes [] files = inl (sym (append-nil files.history), refl)
    collect-Writes (round ∷ rounds) files = elim (Result-cases (scrape_all hx targets round.get)) [
      | inr (exc, e) ↦
          rw (round_raises round rounds files exc e) (inl (sym (append-nil files.history), refl))
      | inl (services, e) ↦ by_disk (λ fs. collect-Writes rounds fs) services e round.disk refl
    ]
      where
        line : Dict (Payload J) → String
        line services = String.◌++◌ (dumps (snapshot_of round services)) "\n"

        joined :
            (services : Dict (Payload J)) (more : String)
            → String.◌++◌ (String.◌++◌ files.history (line services)) more
              ≡ String.◌++◌ files.history (String.◌++◌ (line services) more)
        joined services more = append_assoc files.history (line services) more

        by_disk :
            ((fs : Files) → Writes fs (run rounds fs))
            → (services : Dict (Payload J)) → scrape_all hx targets round.get ≡ ok services
            → (disk : Disk) → round.disk ≡ disk
            → Writes files (run (round ∷ rounds) files)
        by_disk later services e not_opened d =
            fails not_opened "" round rounds files services e d refl
              (sym (append-nil files.history))
        by_disk later services e (output_cut text) d =
            fails (output_cut text) "" round rounds files services e d refl
              (sym (append-nil files.history))
        by_disk later services e (history_cut text) d =
            fails (history_cut text) text round rounds files services e d refl refl
        by_disk later services e written d = elim (Bool-cases (one_shot || round.stop_set)) [
          | inl ended ↦
              rw (round_ends round rounds files services e d ended)
                (inl (ap (String.◌++◌ files.history) (sym (append-nil (line services))), refl))
          | inr goes ↦
              let files' =
                (write_outputs hx dumps_indent dumps written (snapshot_of round services)
                  files).0 in
              let rest = run rounds files' in
              rw (round_goes round rounds files services e d goes) (elim (later files') [
                | inl (h, o) ↦ inl (h ∙ joined services (lines_of rest.2), o)
                | inr (part, over, h) ↦ inr (
                  part,
                  over,
                  h
                      ∙ joined services (String.◌++◌ (lines_of rest.2) part)
                      ∙ ap (String.◌++◌ files.history)
                          (sym (append_assoc (line services) (lines_of rest.2) part)),
                )
              ])
        ]
