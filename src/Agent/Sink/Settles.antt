-- ===== src/Agent/Sink/Settles.antt =====
-- cmd/agent/main.go: what acting on the result of a shipment does to the queue.
use shadow_twin.Prelude.{◌≡◌, refl, ◌≢◌, Option, none, some, All}
use shadow_twin.Fs.{FilePath, lookup}
use shadow_twin.Buffer.{Spool, Batch}
use shadow_twin.Buffer.Tally.{Tally}
use shadow_twin.Buffer.Reading.Files.{IsEventPath}
use shadow_twin.Buffer.Reading.Settling.{ack-Tally, dead_letter-Tally, ack-other}
use shadow_twin.Buffer.Reading.Frame.{
  Framed, Framed-refl, ack-Framed, dead_letter-Framed, dead_letter-other,
}
use shadow_twin.Transport.{SendError, retryable, permanent, unauthorized}
use shadow_twin.Agent.Sink.{settle}

pub settle-Framed : (o : Option SendError) (b : Batch) (s : Spool) → Framed s (settle o b s)
unfolding settle
settle-Framed none b s = ack-Framed b.files none s
settle-Framed (some permanent) b s = dead_letter-Framed b.files none s
settle-Framed (some retryable) b s = Framed-refl s s refl
settle-Framed (some unauthorized) b s = Framed-refl s s refl

pub settle-Tally :
    (o : Option SendError) (b : Batch) (s : Spool)
    → All (IsEventPath s.queue.dir) b.files
    → Tally s
    → Tally (settle o b s)
unfolding settle
settle-Tally none b s h t = ack-Tally b.files none s h t
settle-Tally (some permanent) b s h t = dead_letter-Tally b.files none s h t
settle-Tally (some retryable) b s h t = t
settle-Tally (some unauthorized) b s h t = t

pub settle-other :
    (o : Option SendError) (b : Batch) (s : Spool) (q : FilePath)
    → q.dir ≢ s.queue.dead_dir
    → All (λ p. q ≢ p) b.files
    → lookup q (settle o b s).disk.files ≡ lookup q s.disk.files
unfolding settle
settle-other none b s q n h = ack-other b.files none s q h
settle-other (some permanent) b s q n h = dead_letter-other b.files none s q n h
settle-other (some retryable) b s q n h = refl
settle-other (some unauthorized) b s q n h = refl

-- A shipment that fails in another way than for good touches nothing.
pub settle-retry : (b : Batch) (s : Spool) → settle (some retryable) b s ≡ s
unfolding settle
settle-retry b s = refl

pub settle-halt : (b : Batch) (s : Spool) → settle (some unauthorized) b s ≡ s
unfolding settle
settle-halt b s = refl
