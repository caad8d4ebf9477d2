-- ===== src/Tests/Consumer.antt =====
-- The consumer on the test queue: a platform that takes one batch and then revokes the agent, while
-- an event comes in.
use shadow_twin.Prelude.{
  ℕ, zero, suc, ◌≡◌, refl, codes, false, Option, none, some, List, [], ◌∷◌, nat_eq, bytes_eq,
}
use shadow_twin.Fs.{path_eq, Node, lookup}
use shadow_twin.Text.{has_suffix}
use shadow_twin.Collectors.Event.{Event}
use shadow_twin.Buffer.{Spool}
use shadow_twin.Buffer.Tally.Writing.{final_of}
use shadow_twin.Transport.{SendError, unauthorized}
use shadow_twin.Agent.Sink.{World, Run, tick, stop_drain, let_in, run_sink}
use shadow_twin.Agent.Sink.Producer.{Arrives}
use shadow_twin.Agent.Sink.Fates.{Fate, IsStored}
use shadow_twin.Agent.Sink.Fates.Passes.{run_sink-Fate, started}
use shadow_twin.Prelude.{sym, ◌≢◌, true, ap, arith}
use shadow_twin.Prelude.Int.{pos_part}
use shadow_twin.Fs.{is_dir}
use shadow_twin.Buffer.Tally.{pending_count}
use shadow_twin.Buffer.Reading.Easing.{no_folders}
use shadow_twin.Agent.Sink.{spent, drain_pass, final_flush}
use shadow_twin.Agent.Sink.Ends.Passes.{drain_pass-ends}
use shadow_twin.Tests.{event, codec, dir, spool, spool-Tally}

abbrev answers : ℕ → List Event → Option SendError
answers zero evs = none
answers (suc n) evs = some unauthorized

-- An event comes in where its name is free.
abbrev offered : Option Node → List Event
offered none = event (codes "c") ∷ []
offered (some _) = []

abbrev coming : ℕ → Spool → List Event
coming n s = offered (lookup (final_of s (event (codes "c"))) s.disk.files)

abbrev world : World
world = record { deliver = answers; arrivals = coming; timed_out = λ n. false }

offered-Arrives :
    (s : Spool) (o : Option Node)
    → lookup (final_of s (event (codes "c"))) s.disk.files ≡ o
    → Arrives codec (offered o) s
unfolding Arrives
offered-Arrives s none h = (h, tt)
offered-Arrives s (some n) h = tt

coming-Arrives : (n : ℕ) (s : Spool) → Arrives codec (world.arrivals n s) s
coming-Arrives n s = offered-Arrives s _ refl

first-IsStored : IsStored codec dir spool.disk.files 0 (codes "1.json") (event (codes "a"))
unfolding has_suffix lookup path_eq bytes_eq nat_eq
first-IsStored = record {
  mode = 0o600;
  content = codes "a";
  suffix = refl;
  found = refl;
  parses = refl;
}

abbrev finished : Run
finished = let_in codec world (run_sink codec world 1 10 (tick ∷ stop_drain ∷ []) (started spool)).1

run_sink-Fate_example :
    Fate codec dir spool.disk.files 0
      (codes "1.json")
      (event (codes "a"))
      finished.spool
      finished.sent
run_sink-Fate_example =
    run_sink-Fate codec world 1 coming-Arrives 10 (tick ∷ stop_drain ∷ []) spool spool-Tally
      (codes "1.json") (event (codes "a")) first-IsStored

-- The same answers, while nothing comes in.
abbrev still : World
still = record { deliver = answers; arrivals = λ n s. []; timed_out = λ n. false }

dead_free : no_folders spool.queue.dead_dir spool.disk.files ≡ true
unfolding no_folders bytes_eq nat_eq is_dir
dead_free = refl

three_pending : pending_count dir spool.disk.files ≡ 3
three_pending = ap pos_part (sym spool-Tally.counted)

drain_pass-ends_example :
    ((drain_pass codec still 1 10 (started spool)).0 ≢ spent)
    × ((final_flush codec still 1 10 (started spool)).0 ≢ spent)
drain_pass-ends_example =
    drain_pass-ends codec still 1 (λ n s. refl) 10 (started spool) spool-Tally dead_free
      (omega (arith, three_pending))
