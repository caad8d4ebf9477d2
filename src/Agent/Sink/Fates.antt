-- ===== src/Agent/Sink/Fates.antt =====
-- cmd/agent/main.go: what becomes of a stored event in a run of the consumer.
pub mod Rounds
pub mod Passes
use shadow_twin.Prelude.{
  ℕ, ◌+◌, ◌≤◌, ◌<◌, ◌≡◌, refl, ◌≢◌, ◌⊎◌, inl, inr, Bytes, Bool, true, Option, none, some, List, [],
  ◌∷◌, arith, All, ap, sym, ◌∙◌, length,
}
use mathlib.Core.Path.{subst}
use shadow_twin.Fs.{FilePath, path_eq, Node, file, Files, ok, lookup, is_dir}
use shadow_twin.Text.{has_suffix}
use shadow_twin.Collectors.Event.{Event}
use shadow_twin.Buffer.{Spool, Queue, Batch, Codec, at, file_suffix, is_pending, pending_names}
use shadow_twin.Buffer.Tally.{Tally, All-map, IsListed}
use shadow_twin.Buffer.Reading.{read_batch}
use shadow_twin.Buffer.Reading.Files.{IsEventPath}
use shadow_twin.Buffer.Reading.Frame.{Framed, read_batch-Framed}
use shadow_twin.Buffer.Reading.Fifo.{
  Serves, done, full_stop, big_stop, serve, pass, Reads, KeptOrCorrupt,
}
use shadow_twin.Buffer.Reading.Fifo.Loop.{
  read_batch-Serves, read_batch-Reads, Serves-IsEventPath, queued_names,
}
use shadow_twin.Transport.{SendError, retryable, permanent, unauthorized}
use shadow_twin.Agent.Sink.{Shipment, World, Run, persist, settle}
use shadow_twin.Agent.Sink.Producer.{Arrives, Stores, persist-Stores}
use shadow_twin.Agent.Sink.Settles.{settle-Framed, settle-Tally, settle-other}

-- The file and its event are in the batch.
abbrev pub Carries : FilePath → Event → List FilePath → List Event → Type 0
Carries p ev [] evs = ⊥
Carries p ev (q ∷ ps) [] = ⊥
Carries p ev (q ∷ ps) (e ∷ evs) = ((p ≡ q) × (ev ≡ e)) ⊎ Carries p ev ps evs

-- The platform has the batch, or will never take it.
abbrev pub IsFinal : Option SendError → Type 0
IsFinal none = Unit
IsFinal (some permanent) = Unit
IsFinal (some retryable) = ⊥
IsFinal (some unauthorized) = ⊥

abbrev pub IsSettled : FilePath → Event → List Shipment → Type 0
IsSettled p ev [] = ⊥
IsSettled p ev (sh ∷ sent) =
    (IsFinal sh.outcome × Carries p ev sh.batch.files sh.batch.events) ⊎ IsSettled p ev sent

-- A batch of ReadBatch holds a readable event with its file, or does not touch the file.
module _ (codec : Codec) (max_n max_bytes : ℕ) (dir : Bytes) (fs : Files) (name c : Bytes) (m : ℕ)
    (ev : Event) (l : lookup (at dir name) fs ≡ some (file m c))
    (e : codec.unmarshal c ≡ some ev) where
  pub Serves-Carries :
      {names : List Bytes} {n total : ℕ} {ps : List FilePath} {evs : List Event}
      → Serves codec max_n max_bytes dir fs names n total ps evs
      → Carries (at dir name) ev ps evs ⊎ All (λ p. at dir name ≢ p) ps
  Serves-Carries done = inr tt
  Serves-Carries (full_stop f) = inr tt
  Serves-Carries (big_stop k o) = inr tt
  Serves-Carries (pass k x v) = Serves-Carries v
  Serves-Carries (serve {name = other} n k o x v) =
      elim (path_eq.dec (at dir name) (at dir other)) [
        | yes h ↦ inl (inl (h, cc))
        | no h ↦ elim (Serves-Carries v) [ inl a ↦ inl (inr a) | inr a ↦ inr (h, a) ]
      ]

-- From the files fs0 of the folder, and the count of dropped events, at the start of the run.
module _ (codec : Codec) (dir : Bytes) (fs0 : Files) (dropped0 : ℕ) where
  -- The readable events of the start.
  pub record IsStored (name : Bytes) (ev : Event) : Type 0 where
    pub mode : ℕ
    pub content : Bytes
    pub suffix : has_suffix name file_suffix ≡ true
    pub found : lookup (at dir name) fs0 ≡ some (file mode content)
    pub parses : codec.unmarshal content ≡ some ev

  pub data Fate (name : Bytes) (ev : Event) (s : Spool) (sent : List Shipment) : Type 0 where
    kept : lookup (at dir name) s.disk.files ≡ lookup (at dir name) fs0 → Fate name ev s sent
    settled : IsSettled (at dir name) ev sent → Fate name ev s sent
    dropped : dropped0 < s.queue.dropped → Fate name ev s sent

  pub record Safe (s : Spool) (sent : List Shipment) : Type 0 where
    pub tally : Tally s
    pub same_dir : s.queue.dir ≡ dir
    pub grown : dropped0 ≤ s.queue.dropped
    pub fates : (name : Bytes) (ev : Event) → IsStored name ev → Fate name ev s sent

  module _ (s : Spool) (sent : List Shipment) (safe : Safe s sent) where
    Fate-Reads :
        (max_n max_bytes : ℕ) (name : Bytes) (ev : Event) (s1 : Spool)
        → IsStored name ev
        → Reads codec max_n max_bytes s.queue.dir s.disk.files s1
        → Framed s s1
        → Fate name ev s1 sent
    Fate-Reads max_n max_bytes name ev s1 i r f = elim (safe.fates name ev i) [
      | settled h ↦ settled h
      | dropped h ↦ dropped (omega (arith, h, f.dropped))
      | kept h ↦
          let k : KeptOrCorrupt codec max_n max_bytes dir s.disk.files s1.disk.files name =
            subst (λ d. KeptOrCorrupt codec max_n max_bytes d s.disk.files s1.disk.files name)
              safe.same_dir (r.keeps name) in
          elim k [ inl e ↦ kept (e ∙ h) | inr (e, (m, c, l, x)) ↦ cc (i.found, i.parses, h) ]
    ]

    -- ReadBatch decides no fate.
    pub Safe-read : (batch_size : ℕ) → Safe (read_batch codec batch_size 0 s).1 sent
    Safe-read batch_size =
        let f = read_batch-Framed codec batch_size 0 s in
        let r = read_batch-Reads codec batch_size 0 s safe.tally in
        record {
          tally = r.tally;
          same_dir = f.dir ∙ safe.same_dir;
          grown = omega (arith, safe.grown, f.dropped);
          fates = λ name ev i.
              Fate-Reads batch_size 0 name ev (read_batch codec batch_size 0 s).1 i r f;
        }

    Fate-Stores :
        (name : Bytes) (ev : Event) (s1 : Spool)
        → IsStored name ev
        → Stores s s1
        → Fate name ev s1 sent
    unfolding is_pending is_dir
    Fate-Stores name ev s1 i w = elim (safe.fates name ev i) [
      | settled h ↦ settled h
      | dropped h ↦ dropped (omega (arith, h, w.grows))
      | kept h ↦
          let p : is_pending name (file i.mode i.content) ≡ true = ground (arith, i.suffix) in
          let l =
            subst (λ d. lookup (at d name) s.disk.files ≡ some (file i.mode i.content))
              (sym safe.same_dir) (h ∙ i.found) in
          elim (w.keeps name (file i.mode i.content) p l) [
            | inr d ↦ dropped (omega (arith, d, safe.grown))
            | inl k ↦ kept (
                subst (λ d. lookup (at d name) s1.disk.files ≡ some (file i.mode i.content))
                  safe.same_dir k
                ∙ sym i.found)
          ]
    ]

    -- Nor does the producer, but for the events that it makes room with.
    pub Safe-persist : (evs : List Event) → Arrives codec evs s → Safe (persist codec evs s) sent
    Safe-persist evs a =
        let w = persist-Stores codec evs s a safe.tally in
        record {
          tally = w.tally;
          same_dir = w.dir ∙ safe.same_dir;
          grown = omega (arith, safe.grown, w.grows);
          fates = λ name ev i. Fate-Stores name ev (persist codec evs s) i w;
        }

  -- What a shipment of the batch b decides for a file that the batch carries, or does not touch.
  module _ (b : Batch) (o : Option SendError) (s1 : Spool) (sent : List Shipment)
      (safe : Safe s1 sent) where
    abbrev shipped : List Shipment
    shipped = record { batch = b; outcome = o } ∷ sent

    ne_dead : dir ≢ s1.queue.dead_dir
    ne_dead e = safe.tally.apart (sym (safe.same_dir ∙ e))

    Fate-carried :
        (o' : Option SendError) (name : Bytes) (ev : Event)
        → o ≡ o'
        → lookup (at dir name) s1.disk.files ≡ lookup (at dir name) fs0
        → Carries (at dir name) ev b.files b.events
        → Fate name ev (settle o b s1) shipped
    unfolding settle
    Fate-carried none name ev e l k = settled (rw e (inl (tt, k)))
    Fate-carried (some permanent) name ev e l k = settled (rw e (inl (tt, k)))
    Fate-carried (some retryable) name ev e l k = kept (rw e l)
    Fate-carried (some unauthorized) name ev e l k = kept (rw e l)

    Fate-shipped :
        (name : Bytes) (ev : Event)
        → Carries (at dir name) ev b.files b.events ⊎ All (λ p. at dir name ≢ p) b.files
        → Fate name ev s1 sent
        → Fate name ev (settle o b s1) shipped
    Fate-shipped name ev k (settled h) = settled (inr h)
    Fate-shipped name ev k (dropped h) = dropped (omega (arith, h, (settle-Framed o b s1).dropped))
    Fate-shipped name ev (inl k) (kept l) = Fate-carried o name ev refl l k
    Fate-shipped name ev (inr k) (kept l) = kept (settle-other o b s1 (at dir name) ne_dead k ∙ l)
