-- ===== src/Bench/Fill/Filled.antt =====
-- The setup of the workloads that read ends, and the file is whole.
use nfsclient.Base.{
  ℕ, zero, suc, ◌+◌, ◌%◌, ◌^◌, ◌≤◌, ◌<◌, ◌≡◌, refl, sym, ap, ◌∙◌, List, [], ◌∷◌, ◌++◌, length, take,
  replicate, length-replicate, ltb, ltb→lt, ltb→le, Bool-cases, inl, inr, arith,
}
use nfsclient.Errors.{ok}
use nfsclient.Exec.{bind-ok}
use nfsclient.Nfs3.Types.{Fh3, Stable3, WriteResult}
use nfsclient.Nfs3.Names.{CreateMode3}
use nfsclient.Bench.Client.{Files, BenchConfig, no_attributes, bench_file}
use nfsclient.Bench.Fill.{chunk, fill_loop, fill}

take-replicate : (m n byte : ℕ) → m ≤ n → take m (replicate n byte) ≡ replicate m byte
take-replicate zero n byte h = refl
take-replicate (suc m) zero byte h = absurd (omega arith)
take-replicate (suc m) (suc n) byte h = ap (λ t. byte ∷ t) (take-replicate m n byte (omega arith))

replicate-add : (m n byte : ℕ) → replicate m byte ++ replicate n byte ≡ replicate (m + n) byte
replicate-add zero n byte = let e : (n ≡ 0 + n) = omega arith in ap (λ k. replicate k byte) e
replicate-add (suc m) n byte =
    let e : (suc (m + n) ≡ suc m + n) = omega arith in
    ap (λ t. byte ∷ t) (replicate-add m n byte) ∙ ap (λ k. replicate k byte) e

-- A round writes something, at most a block, and stays inside the file.
chunk-range :
    (bs size written : ℕ)
    → 0 < bs
    → bs < 2 ^ 32
    → size < 2 ^ 64
    → written < size
    → (0 < chunk bs size written)
      × (chunk bs size written ≤ bs)
      × (written + chunk bs size written ≤ size)
unfolding chunk
chunk-range bs size written pos small fits more = ground arith

module _ (files : Files) where
  open files use {Client, create, write}

  -- A server that takes every write whole, at the end of the file whose bytes are `contents`.
  pub record Stores (fh : Fh3) (contents : Client → List ℕ) : Type 0 where
    pub stores :
        (c : Client) (offset : ℕ) (bytes : List ℕ)
        → length (contents c) ≡ offset
        → (r : WriteResult) × (c' : Client) × (write fh offset Stable3.file_sync bytes c
            ≡ (ok r, c'))
          × (contents c' ≡ contents c ++ bytes)

  fill_loop-Stores :
      (fh : Fh3) (contents : Client → List ℕ)
      → Stores fh contents
      → (fuel byte bs size written : ℕ) (c : Client) → (0 < bs) × (bs < 2 ^ 32) × (size < 2 ^ 64)
      → written ≤ size
      → size < written + fuel
      → contents c ≡ replicate written byte
      → (c' : Client) × (fill_loop files fuel fh (replicate bs byte) bs size written c
          ≡ (ok tt, c'))
        × (contents c' ≡ replicate size byte)
  unfolding fill_loop
  fill_loop-Stores fh contents st zero byte bs size written c fits le lt now = absurd (omega arith)
  fill_loop-Stores fh contents st (suc fuel) byte bs size written c fits le lt now =
      elim (Bool-cases (ltb written size)) [
        | inr done ↦
            let full : (written ≡ size) = omega (arith, ltb→le written size done) in
            (c, rw done refl, now ∙ ap (λ n. replicate n byte) full)
        | inl more ↦
            let (pos, few, inside) =
              chunk-range bs size written fits.0 fits.1 fits.2 (ltb→lt written size more) in
            let k : ℕ = chunk bs size written in
            let (r, c1, ew, ec) =
              st.stores c written (take k (replicate bs byte))
                (ap length now ∙ length-replicate written byte) in
            let kept : ((written + k) % 2 ^ 64 ≡ written + k) = omega (arith, inside, fits) in
            let (c2, el, ef) =
              fill_loop-Stores fh contents st fuel byte bs size ((written + k) % 2 ^ 64) c1 fits
                (omega (arith, kept, inside)) (omega (arith, kept, pos))
                (ec
                  ∙ ap (λ t. t ++ take k (replicate bs byte)) now
                  ∙ ap (λ t. replicate written byte ++ t) (take-replicate k bs byte few)
                  ∙ replicate-add written k byte
                  ∙ ap (λ n. replicate n byte) (sym kept)) in
            (c2, rw more (bind-ok _ _ c c1 r ew ∙ el), ef)
      ]

  -- The setup of a workload ends, and the file has every byte of its size, whatever the block: also when
  -- the size is no multiple of the block. For a new file, a server that stores what it is sent, a block
  -- of 1 to 2 ^ 32 - 1 bytes, a size below 2 ^ 64, and more rounds than bytes.
  pub fill-Stores :
      (fh workdir : Fh3) (contents : Client → List ℕ)
      → Stores fh contents
      → (fuel byte : ℕ) (cfg : BenchConfig) (c c1 : Client)
      → (0 < cfg.bs) × (cfg.bs < 2 ^ 32) × (cfg.size < 2 ^ 64)
      → cfg.size < fuel
      → create workdir bench_file CreateMode3.unchecked no_attributes c ≡ (ok fh, c1)
      → contents c1 ≡ []
      → (c' : Client) × (fill files fuel byte workdir cfg c ≡ (ok tt, c'))
        × (contents c' ≡ replicate cfg.size byte)
  unfolding fill
  fill-Stores fh workdir contents st fuel byte cfg c c1 fits lt made new =
      let (c2, el, ef) =
        fill_loop-Stores fh contents st fuel byte cfg.bs cfg.size 0 c1 fits (omega arith)
          (omega arith) new in
      (c2, bind-ok _ _ c c1 fh made ∙ el, ef)
