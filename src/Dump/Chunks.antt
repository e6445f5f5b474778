-- ===== src/Dump/Chunks.antt =====
-- Writing in chunks, and the buffers with a limit.
use pgwarden.Prelude.{
  ℕ, zero, suc, ◌≤◌, ◌≡◌, refl, ap, ◌∙◌, min, [], ◌∷◌, ◌++◌, Bytes, length, take, drop, concat, All,
  arith, take-append-drop, length-take, length-drop, keep_last, keep_last-append,
  length-keep_last-le,
}
use mathlib.Core.List.{append_assoc}
use pgwarden.Dump.{parallel_dump_chunk_size, chunks_fuel, write_chunks, tail_buffer_max, tail_write}

-- The size of the first chunk.
abbrev first_size : ℕ → Bytes → ℕ
first_size b p = min (length (b ∷ p)) parallel_dump_chunk_size

concat-chunks_fuel : (f : ℕ) (p : Bytes) → length p ≤ f → concat (chunks_fuel f p) ≡ p
unfolding chunks_fuel
concat-chunks_fuel zero [] h = refl
concat-chunks_fuel zero (b ∷ p) h = absurd (omega arith)
concat-chunks_fuel (suc f) [] h = refl
concat-chunks_fuel (suc f) (b ∷ p) h =
    ap (λ l. take (first_size b p) (b ∷ p) ++ l)
      (concat-chunks_fuel f (drop (first_size b p) (b ∷ p))
        (omega (arith, length-drop (first_size b p) (b ∷ p))))
    ∙ take-append-drop (first_size b p) (b ∷ p)

chunks_fuel_sizes :
    (f : ℕ) (p : Bytes)
    → All (λ c. (1 ≤ length c) × (length c ≤ parallel_dump_chunk_size)) (chunks_fuel f p)
unfolding chunks_fuel
chunks_fuel_sizes zero p = tt
chunks_fuel_sizes (suc f) [] = tt
chunks_fuel_sizes (suc f) (b ∷ p) = (
  omega (arith, length-take (first_size b p) (b ∷ p) (omega arith)),
  chunks_fuel_sizes f (drop (first_size b p) (b ∷ p)),
)

-- A write sends the bytes of its text, in order and all of them, in chunks that are not empty and not
-- longer than 256 KiB.
pub write_chunks_exact :
    (p : Bytes)
    → (concat (write_chunks p) ≡ p)
      × All (λ c. (1 ≤ length c) × (length c ≤ parallel_dump_chunk_size)) (write_chunks p)
unfolding write_chunks
write_chunks_exact p =
    (concat-chunks_fuel (length p) p (omega arith), chunks_fuel_sizes (length p) p)

-- The buffer of a process's error output never passes 8 KiB, and it does not matter how the output is
-- cut into writes.
pub tail_write_keeps :
    (buf p q : Bytes)
    → (length (tail_write buf p) ≤ tail_buffer_max)
      × (tail_write (tail_write buf p) q ≡ tail_write buf (p ++ q))
unfolding tail_write
tail_write_keeps buf p q = (
  length-keep_last-le tail_buffer_max (buf ++ p),
  keep_last-append tail_buffer_max (buf ++ p) q
      ∙ ap (keep_last tail_buffer_max) (append_assoc buf p q),
)
