-- ===== src/Bench/Counts.antt =====
-- What the counters of tools/bench say: the operations counted are the latencies kept.
use nfsclient.Base.{ℕ, suc, ◌%◌, ◌^◌, ◌≡◌, refl, List, [], ◌∷◌, length, length-append, arith}
use nfsclient.Errors.{Result, ok, err, fault}
use nfsclient.Exec.{Exec, pure, continue, ◌>>=◌}
use nfsclient.Nfs3.Types.{Fh3}
use nfsclient.Bench.Stats.{count}
use nfsclient.Bench.Client.{Files, BenchConfig}
use nfsclient.Bench.Run.{Workload, run, Thread, started, worker, add_thread, join_all, run_threads}
use nfsclient.Bench.Workloads.{
  no_progress, Round, Progress, count_op, on_client, counted, seqread_loop, seqread, randread_loop,
  randread, seqwrite_loop, seqwrite, randwrite_loop, randwrite, meta_loop, mixed_loop, mixed,
}

abbrev pub IsCounted : Progress → Type 0
IsCounted p = p.ops ≡ count p.res % 2 ^ 64

IsCounted-count_op : (ns moved : ℕ) (p : Progress) → IsCounted p → IsCounted (count_op ns moved p)
unfolding count_op
IsCounted-count_op ns moved p h = omega (arith, length-append p.res.samples (ns ∷ []))

IsCounted-add_thread :
    (p before : Progress) → IsCounted p → IsCounted before → IsCounted (add_thread p before)
unfolding add_thread
IsCounted-add_thread p before h hb =
    omega (arith, h, hb, length-append before.res.samples p.res.samples)

-- An action that leaves a worker counted, however it ends.
record Counts {S A : Type 0} (m : Exec (S × Progress) A) : Type 0 where
  at : (w : S × Progress) → IsCounted w.1 → IsCounted (m w).1.1

module _ {S : Type 0} where
  Counts-continue :
      {A B : Type 0} (r : Result A) (f : A → Exec (S × Progress) B) (w : S × Progress)
      → ((a : A) → Counts (f a))
      → IsCounted w.1
      → IsCounted (continue r f w).1.1
  Counts-continue (ok a) f w k h = (k a).at w h
  Counts-continue (err e) f w k h = h
  Counts-continue (fault x) f w k h = h

  Counts-bind :
      {A B : Type 0} (m : Exec (S × Progress) A) (f : A → Exec (S × Progress) B)
      → Counts m
      → ((a : A) → Counts (f a))
      → Counts (m >>= f)
  unfolding ◌>>=◌
  Counts-bind m f cm cf = record { at = λ w h. Counts-continue (m w).0 f (m w).1 cf (cm.at w h) }

module _ (files : Files) (to_string : ℕ → List ℕ) where
  open files use {Client}

  Counts-on_client : {A : Type 0} (m : Exec Client A) → Counts (on_client files to_string m)
  Counts-on_client m = record { at = λ w h. h }

  Counts-counted : (ns moved : ℕ) → Counts (counted files to_string ns moved)
  Counts-counted ns moved = record { at = λ w h. IsCounted-count_op ns moved w.1 h }

  Counts-pure : Counts {S = Client} (pure (tt {0}))
  Counts-pure = record { at = λ w h. h }

  -- A round: what the client does, the counters, and the rounds after it.
  Counts-round :
      {A : Type 0} (m : Exec Client A) (ns : ℕ) (moved : A → ℕ)
      (rest : A → Exec (Client × Progress) (Unit {0}))
      → ((a : A) → Counts (rest a))
      → Counts (
          on_client files to_string m >>= λ a. counted files to_string ns (moved a) >>= λ u. rest a)
  Counts-round m ns moved rest k =
      Counts-bind _ _ (Counts-on_client m)
        λ a. Counts-bind _ _ (Counts-counted ns (moved a)) λ u. k a

  Counts-seqread_loop :
      (cfg : BenchConfig) (fh : Fh3) (rounds : List Round) (offset : ℕ)
      → Counts (seqread_loop files to_string cfg fh rounds offset)
  unfolding seqread_loop
  Counts-seqread_loop cfg fh [] offset = Counts-pure
  Counts-seqread_loop cfg fh (r ∷ rounds) offset =
      Counts-round _ r.elapsed length _ (λ bytes. Counts-seqread_loop cfg fh rounds _)

  Counts-randread_loop :
      (cfg : BenchConfig) (fh : Fh3) (rounds : List Round)
      → Counts (randread_loop files to_string cfg fh rounds)
  unfolding randread_loop
  Counts-randread_loop cfg fh [] = Counts-pure
  Counts-randread_loop cfg fh (r ∷ rounds) =
      Counts-round _ r.elapsed length _ (λ bytes. Counts-randread_loop cfg fh rounds)

  Counts-seqwrite_loop :
      (cfg : BenchConfig) (fh : Fh3) (rounds : List Round) (offset : ℕ)
      → Counts (seqwrite_loop files to_string cfg fh rounds offset)
  unfolding seqwrite_loop
  Counts-seqwrite_loop cfg fh [] offset = Counts-pure
  Counts-seqwrite_loop cfg fh (r ∷ rounds) offset =
      Counts-round _ r.elapsed (λ result. result.count) _
        (λ result. Counts-seqwrite_loop cfg fh rounds _)

  Counts-randwrite_loop :
      (cfg : BenchConfig) (fh : Fh3) (rounds : List Round)
      → Counts (randwrite_loop files to_string cfg fh rounds)
  unfolding randwrite_loop
  Counts-randwrite_loop cfg fh [] = Counts-pure
  Counts-randwrite_loop cfg fh (r ∷ rounds) =
      Counts-round _ r.elapsed (λ result. result.count) _
        (λ result. Counts-randwrite_loop cfg fh rounds)

  Counts-meta_loop :
      (workdir : Fh3) (tid : ℕ) (rounds : List Round) (seq : ℕ)
      → Counts (meta_loop files to_string workdir tid rounds seq)
  unfolding meta_loop
  Counts-meta_loop workdir tid [] seq = Counts-pure
  Counts-meta_loop workdir tid (r ∷ rounds) seq =
      Counts-bind _ _ (Counts-on_client _)
        λ fh. Counts-round _ r.elapsed (λ u. 0) _ (λ u. Counts-meta_loop workdir tid rounds _)

  Counts-mixed_loop :
      (cfg : BenchConfig) (fh : Fh3) (rounds : List Round)
      → Counts (mixed_loop files to_string cfg fh rounds)
  unfolding mixed_loop
  Counts-mixed_loop cfg fh [] = Counts-pure
  Counts-mixed_loop cfg fh (r ∷ rounds) =
      Counts-round _ r.elapsed (λ moved. moved) _ (λ moved. Counts-mixed_loop cfg fh rounds)

  Counts-run :
      (wl : Workload) (cfg : BenchConfig) (workdir : Fh3) (tid : ℕ) (rounds : List Round)
      → Counts (run files to_string wl cfg workdir tid rounds)
  unfolding run seqread randread seqwrite randwrite mixed
  Counts-run Workload.seqread cfg workdir tid rounds =
      Counts-bind _ _ (Counts-on_client _) λ fh. Counts-seqread_loop cfg fh rounds 0
  Counts-run Workload.seqwrite cfg workdir tid rounds =
      Counts-bind _ _ (Counts-on_client _)
        λ fh. Counts-bind _ _ (Counts-seqwrite_loop cfg fh rounds 0) λ u. Counts-on_client _
  Counts-run Workload.randread cfg workdir tid rounds =
      Counts-bind _ _ (Counts-on_client _) λ fh. Counts-randread_loop cfg fh rounds
  Counts-run Workload.randwrite cfg workdir tid rounds = Counts-bind _ _ (Counts-on_client _) λ fh.
      Counts-bind _ _ (Counts-on_client _)
        λ u. Counts-bind _ _ (Counts-randwrite_loop cfg fh rounds) λ u. Counts-on_client _
  Counts-run Workload.meta cfg workdir tid rounds = Counts-meta_loop workdir tid rounds 0
  Counts-run Workload.mixed cfg workdir tid rounds =
      Counts-bind _ _ (Counts-on_client _) λ fh. Counts-mixed_loop cfg fh rounds

  IsCounted-worker :
      (wl : Workload) (cfg : BenchConfig) (workdir : Fh3) (tid : ℕ) (t : Thread files to_string)
      → IsCounted (worker files to_string wl cfg workdir tid t)
  unfolding worker
  IsCounted-worker wl cfg workdir tid t = ends t.client
    where
      ends : (r : Result Client) → IsCounted (started files to_string wl cfg workdir tid t.rounds r)
      ends (ok c) = (Counts-run wl cfg workdir tid t.rounds).at (c, no_progress) refl
      ends (err e) = refl
      ends (fault x) = refl

  IsCounted-join_all :
      (wl : Workload) (cfg : BenchConfig) (workdir : Fh3) (tid : ℕ)
      (threads : List (Thread files to_string)) (before : Progress)
      → IsCounted before
      → IsCounted (join_all files to_string wl cfg workdir tid threads before)
  unfolding join_all
  IsCounted-join_all wl cfg workdir tid [] before h = h
  IsCounted-join_all wl cfg workdir tid (t ∷ threads) before h =
      IsCounted-join_all wl cfg workdir (suc tid) threads _
        (IsCounted-add_thread _ before (IsCounted-worker wl cfg workdir tid t) h)

-- Whatever the threads of a run come upon, a refused connection or an exception in the middle of a
-- workload, the total of the operations is the number of latencies in the merged reservoir, modulo
-- 2 ^ 64. For every workload, number of threads and client.
pub run_threads-IsCounted :
    (files : Files) (to_string : ℕ → List ℕ) (wl : Workload) (cfg : BenchConfig) (workdir : Fh3)
    (threads : List (Thread files to_string))
    → IsCounted (run_threads files to_string wl cfg workdir threads)
unfolding run_threads
run_threads-IsCounted files to_string wl cfg workdir threads =
    IsCounted-join_all files to_string wl cfg workdir 0 threads no_progress refl
