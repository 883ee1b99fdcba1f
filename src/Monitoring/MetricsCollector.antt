-- ===== src/Monitoring/MetricsCollector.antt =====
-- monitoring/metrics_collector.py: rounds of scrapes, the file of the last snapshot and the history.
-- `dumps_indent` and `dumps` are `json.dumps` with the arguments of the two calls.
pub mod Laws
pub mod Scrapes
pub mod Urls
pub mod Arguments
pub mod Main
use Prim.Native.String
use cloud_microservices.Prelude.{
  ℕ, String, Bool, true, false, not, ◌||◌, Option, none, some, List, [], ◌∷◌, ◌++◌, replace,
  if◌then◌else◌, Result, ok, err, ◌>>=◌,
}
use cloud_microservices.Prelude.Dict
use cloud_microservices.Prelude.Dict.{Dict}
use cloud_microservices.Http.{Exchange, Httpx, checked}
use cloud_microservices.Orchestration.Targets.{ServiceTarget}

pub data Payload (J : Type 0) : Type 0 where
  scraped : J → Payload J
  -- the service and the error
  failed : String → String → Payload J

pub record Snapshot (J : Type 0) : Type 0 where
  pub scraped_at : String
  pub services : Dict (Payload J)

-- the texts of the two files; the first one may not be there
pub record Files : Type 0 where
  pub output : Option String
  pub history : String

pub data JsonDecodeError : Type 0 where
  json_decode_error : String → JsonDecodeError

-- how the loop ends by an exception
pub data CollectError : Type 0 where
  not_json : JsonDecodeError → CollectError
  os_error : CollectError

-- What the disk does in `_write_outputs`: both files are written; or `OSError` is raised before the output is opened,
-- behind the given part of the text in the truncated output, or behind the given part of the new line of the history,
-- which is empty where that file cannot be opened.
pub data Disk : Type 0 where
  written : Disk
  not_opened : Disk
  output_cut : String → Disk
  history_cut : String → Disk

-- What a round meets: the exchanges, the clock, the disk, and whether the stop is set by the end of its wait.
pub record Round (J : Type 0) : Type 0 where
  pub get : String → Exchange J
  pub now : String
  pub disk : Disk
  pub stop_set : Bool

unfoldable pub metrics_url : ServiceTarget → String
metrics_url target = replace "/health" "/metrics" target.health_url

module _ {J : Type 0} (hx : Httpx) where
  -- `target.name, resp.json()`
  abbrev pub payload_of : String → Option J → Result JsonDecodeError (String × Payload J)
  payload_of name none = err (json_decode_error name)
  payload_of name (some body) = ok (name, scraped body)

  -- `_scrape_one`: only `httpx.HTTPError` is caught
  unfoldable pub scrape_one :
      (String → Exchange J) → ServiceTarget → Result JsonDecodeError (String × Payload J)
  scrape_one get target = elim (checked hx (get (metrics_url target))) [
    | ok resp ↦ payload_of target.name resp.json
    | err exc ↦ ok (target.name, failed target.name (hx.describe exc))
  ]

  -- `asyncio.gather`
  unfoldable pub gather :
      (String → Exchange J) → List ServiceTarget → Result JsonDecodeError (Dict (Payload J))
  gather get [] = ok []
  gather get (t ∷ ts) = do pair ← scrape_one get t; pairs ← gather get ts; ok (pair ∷ pairs)

  -- the dict comprehension
  unfoldable pub dict_of : Dict (Payload J) → Dict (Payload J) → Dict (Payload J)
  dict_of d [] = d
  dict_of d ((name, payload) ∷ pairs) = dict_of (Dict.put name payload d) pairs

  -- `_scrape_all`
  unfoldable pub scrape_all :
      List ServiceTarget → (String → Exchange J) → Result JsonDecodeError (Dict (Payload J))
  scrape_all targets get = do pairs ← gather get targets; ok (dict_of [] pairs)

  module _ (dumps_indent dumps : Snapshot J → String) where
    -- `_write_outputs`: the files, and whether it returns
    unfoldable pub write_outputs : Disk → Snapshot J → Files → Files × Bool
    write_outputs written snapshot files = (
      record {
        output = some (dumps_indent snapshot);
        history = String.◌++◌ files.history (String.◌++◌ (dumps snapshot) "\n");
      },
      true,
    )
    write_outputs not_opened snapshot files = (files, false)
    write_outputs (output_cut text) snapshot files = (record files { output = some text }, false)
    write_outputs (history_cut text) snapshot files = (
      record { output = some (dumps_indent snapshot); history = String.◌++◌ files.history text },
      false,
    )

    -- The loop of `_amain`, as far as the given rounds reach: whether it has ended, or the exception it
    -- ended with, the files, and the snapshots of which both files have been written.
    unfoldable pub collect :
        Bool
        → List ServiceTarget
        → List (Round J)
        → Files
        → Result CollectError Bool × Files × List (Snapshot J)
    unfolding write_outputs
    collect one_shot targets [] files = (ok false, files, [])
    collect one_shot targets (round ∷ rounds) files = elim (scrape_all targets round.get) [
      | err e ↦ (err (not_json e), files, [])
      | ok services ↦
          let snapshot : Snapshot J = record { scraped_at = round.now; services = services } in
          let (files', returns) = write_outputs round.disk snapshot files in
          let (outcome, files'', more) = collect one_shot targets rounds files' in
          if not returns
          then (err os_error, files', [])
          else if one_shot || round.stop_set
          then (ok true, files', snapshot ∷ [])
          else (outcome, files'', snapshot ∷ more)
    ]
