-- ===== src/Stream/Writer.antt =====
-- EncryptWriter of stream/stream.go. A call takes the writer and returns its results together with
-- the writer as it leaves it, unless it panics.
use darkbio_crypto_go.Base.{
  ℕ, zero, suc, ◌-◌, min, Option, some, none, Bool, true, false, ◌&&◌, not, [], ◌∷◌, ◌++◌, length,
  take, drop, ltb, ◌==◌, if◌then◌else◌,
}
use darkbio_crypto_go.Stream.Types.{
  Bytes, StreamError, closed, Run, done, panic, Aead, chunk_size, unless_failed,
}
use darkbio_crypto_go.Stream.Nonce.{Nonce, nonce_bytes, new_nonce, set_last_chunk_flag, inc_nonce}

-- The underlying writer is a state with its Write, which returns an error or none.
pub record EncryptWriter (D : Type 0) : Type 0 where
  pub aead : Aead
  pub dst : D
  pub buf : Bytes
  pub nonce : Nonce
  pub error : Option StreamError

module _ {D : Type 0} (write_dst : D → Bytes → Option StreamError × D) where
  -- The cipher of a key, or the error of chacha20poly1305.New.
  unfoldable pub new_encrypt_writer : (Bytes → Option Aead) → Bytes → D → Option (EncryptWriter D)
  new_encrypt_writer new_aead key dst = elim (new_aead key) [
    | none ↦ none
    | some aead ↦
        some (record { aead = aead; dst = dst; buf = []; nonce = new_nonce; error = none })
  ]

  abbrev pub flag_nonce : Bool → Nonce → Nonce
  flag_nonce last nonce = if last then set_last_chunk_flag nonce else nonce

  unfoldable pub flush_chunk : Bool → EncryptWriter D → Run (EncryptWriter D) (Option StreamError)
  flush_chunk last w =
      let nonce = flag_nonce last w.nonce in
      let (e, dst) = write_dst w.dst (w.aead.seal (nonce_bytes nonce) w.buf) in
      if not last && not (length w.buf == chunk_size) then panic else elim (inc_nonce nonce) [
        | none ↦ panic
        | some nonce' ↦ done e (record w { dst = dst; buf = []; nonce = nonce' })
      ]

  -- After the flush inside the loop: an error is kept and ends the loop.
  unfoldable pub after_flush :
      (EncryptWriter D → Run (EncryptWriter D) (Option StreamError))
      → Run (EncryptWriter D) (Option StreamError)
      → Run (EncryptWriter D) (Option StreamError)
  after_flush rest (done none w) = rest w
  after_flush rest (done (some e) w) = done (some e) (record w { error = some e })
  after_flush rest panic = panic

  -- `for len(p) > 0`, on fuel; a loop that used it up would count as a panic. The buffer never holds
  -- more than a chunk, so that the subtraction is Go's.
  unfoldable pub write_loop :
      ℕ → Bytes → EncryptWriter D → Run (EncryptWriter D) (Option StreamError)
  write_loop fuel [] w = done none w
  write_loop zero (b ∷ bs) w = panic
  write_loop (suc fuel) (b ∷ bs) w =
      let p = b ∷ bs in
      let n = min (length p) (chunk_size - length w.buf) in
      let filled = record w { buf = w.buf ++ take n p } in
      let rest = write_loop fuel (drop n p) in
      if length filled.buf == chunk_size && ltb 0 (length (drop n p))
      then after_flush rest (flush_chunk false filled)
      else rest filled

  -- The number of bytes taken, and the error.
  unfoldable pub write : Bytes → EncryptWriter D → Run (EncryptWriter D) (ℕ × Option StreamError)
  write p w =
      unless_failed w.error (λ e. done (0, some e) w)
        (if length p == 0 then done (0, none) w else elim (write_loop (suc (length p)) p w) [
          | panic ↦ panic
          | done none w' ↦ done (length p, none) w'
          | done (some e) w' ↦ done (0, some e) w'
        ])

  unfoldable pub close : EncryptWriter D → Run (EncryptWriter D) (Option StreamError)
  close w =
      unless_failed w.error (λ e. done (some e) w)
        (elim (flush_chunk true w) [
          | panic ↦ panic
          | done (some e) w' ↦ done (some e) (record w' { error = some e })
          | done none w' ↦ done none (record w' { error = some closed })
        ])
