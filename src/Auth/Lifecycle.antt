-- ===== src/Auth/Lifecycle.antt =====
-- internal/collectors/auth/auth.go: Start, run and Stop.
pub mod Resuming
pub mod Stopping
use shadow_twin.Prelude.{Bytes, codes, Bool, true, false, Option, none, some, List, [], ◌∷◌, ◌≡◌}
use shadow_twin.Fs.{FilePath, Disk, FsError, Result, ok, err}
use shadow_twin.Auth.{cursor_path, read_cursor, journalctl_args}

-- What ends a collector with an error: its scan or its process.
pub data CollectError : Type 0 where
  reading_journal journalctl_exited : CollectError

-- Where the goroutine of run is: not started; scanning, waiting for the process or about to look at
-- the context; in storeErr; about to close its channels; or gone, with `done` closed.
pub data Phase : Type 0 where
  idle working closing closed : Phase
  storing : CollectError → Phase

-- Collector, with its goroutine and whether the context of Start is cancelled. The cancel function
-- is set once the phase is not `idle`.
pub record Collector : Type 0 where
  pub cursor_file : FilePath
  pub is_cancelled : Bool
  pub phase : Phase
  pub error : Option CollectError

-- New
unfoldable pub new_collector : Bytes → Collector
new_collector state_dir = record {
  cursor_file = cursor_path state_dir;
  is_cancelled = false;
  phase = idle;
  error = none;
}

-- What package os/exec answers: the path of journalctl, and whether its pipe and it come up.
pub record Exec : Type 0 where
  pub look_path : Bytes → Option Bytes
  pub has_pipe : Bool
  pub starts : Bool

pub data StartError : Type 0 where
  no_journalctl no_pipe no_process : StartError
  bad_cursor : FsError → StartError

-- The process that Start has brought up: its path and its arguments.
pub record Process : Type 0 where
  pub path : Bytes
  pub args : List Bytes

-- Start
unfoldable pub start : Exec → Collector → Disk → (Result StartError Process × Collector) × Disk
start x c d = elim (x.look_path (codes "journalctl")) [
  | none ↦ ((err no_journalctl, c), d)
  | some path ↦
      let (r, d1) = read_cursor c.cursor_file d in
      elim r [
        | err e ↦ ((err (bad_cursor e), c), d1)
        | ok cursor ↦ elim x.has_pipe [
          | false ↦ ((err no_pipe, c), d1)
          | true ↦ elim x.starts [
            | false ↦ ((err no_process, c), d1)
            | true ↦ (
              (
                ok (record { path = path; args = journalctl_args cursor }),
                record c { is_cancelled = false; phase = working },
              ),
              d1,
            )
          ]
        ]
      ]
]

-- The switch of run: what the scan and the process have ended with.
unfoldable pub failure : Bool → Bool → Option CollectError
failure true wait_failed = some reading_journal
failure false true = some journalctl_exited
failure false false = none

abbrev pub after_look : Option CollectError → Phase
after_look none = closing
after_look (some e) = storing e

-- run, after the scan and the wait for the process: its one look at the context, and its switch.
unfoldable pub conclude : Bool → Bool → Collector → Collector
conclude scan_failed wait_failed c = elim c.is_cancelled [
  | true ↦ record c { phase = closing }
  | false ↦ record c { phase = after_look (failure scan_failed wait_failed) }
]

-- storeErr
unfoldable pub store_err : CollectError → Collector → Collector
store_err e c = record c { error = some e; phase = closing }

-- The steps of the two goroutines: a cancel, by Stop or from outside, which may come at any time;
-- and run's own, with whether its scan and its process have failed.
pub data Action : Type 0 where
  cancels stores closes : Action
  checks : Bool → Bool → Action

pub data Step (c : Collector) : Action → Collector → Type 0 where
  cancelling : Step c cancels (record c { is_cancelled = true })
  checking :
      (scan_failed wait_failed : Bool)
      → c.phase ≡ working
      → Step c (checks scan_failed wait_failed) (conclude scan_failed wait_failed c)
  failing : (e : CollectError) → c.phase ≡ storing e → Step c stores (store_err e c)
  ending : c.phase ≡ closing → Step c closes (record c { phase = closed })

-- Every interleaving of the steps.
pub data Runs : Collector → List Action → Collector → Type 0 where
  still : {c : Collector} → Runs c [] c
  step :
      {a : Action} {t : List Action} {c d e : Collector}
      → Step c a d
      → Runs d t e
      → Runs c (a ∷ t) e

-- What Stop returns after its cancel, or `none` while it waits for `done`.
unfoldable pub stop_result : Collector → Option (Option CollectError)
stop_result c = elim c.phase [
  | idle ↦ some none
  | working ↦ none
  | storing _ ↦ none
  | closing ↦ none
  | closed ↦ some c.error
]
