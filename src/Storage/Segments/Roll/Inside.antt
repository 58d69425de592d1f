-- ===== src/Storage/Segments/Roll/Inside.antt =====
-- Sealing a segment (logdb/src/storage/mod.rs) writes inside its file only.
use lv_logdb.Prelude.{
  ℕ, ◌+◌, ◌≤◌, ◌≡◌, ◌≢◌, refl, ap, ◌∙◌, inr, false, Bytes, length, ltb, to_le, length-to_le, take,
  le→ltb-false, arith, ok, ℕ_discrete,
}
use lv_logdb.Storage.Disk.{Dir, file_of, content_of, write_at}
use lv_logdb.Storage.Disk.Files.{length-splice, content_of-write_at, file_of-write_at_ne}
use lv_logdb.Storage.Disk.Distinct.{Distinct, Distinct-write_at}
use lv_logdb.Storage.Segments.{SegmentManager, ActiveSegment}
use lv_logdb.Storage.Segments.Manager.{IsManager, Ahead-other, covered_same}
use lv_logdb.Storage.Segments.Roll.{backfill_header_ts}

-- A write inside a file: its length stays, and so do all other files.
pub record Inside (p : ℕ) (dir dir' : Dir) : Type 0 where
  pub sized : length (content_of p dir') ≡ length (content_of p dir)
  pub other : (j : ℕ) → j ≢ p → file_of j dir' ≡ file_of j dir
  pub distinct : Distinct dir → Distinct dir'

write_at-Inside :
    (p offset : ℕ) (bytes : Bytes) (dir : Dir)
    → offset + length bytes ≤ length (content_of p dir)
    → Inside p dir (write_at p offset bytes dir)
write_at-Inside p offset bytes dir h = record {
  sized =
      ap length (content_of-write_at p offset bytes dir)
      ∙ length-splice (content_of p dir) bytes offset h;
  other = λ j n. file_of-write_at_ne j p offset bytes dir n;
  distinct = Distinct-write_at p offset bytes dir;
}

Inside-then : (p : ℕ) (a b c : Dir) → Inside p a b → Inside p b c → Inside p a c
Inside-then p a b c s t = record {
  sized = t.sized ∙ s.sized;
  other = λ j n. t.other j n ∙ s.other j n;
  distinct = λ d. t.distinct (s.distinct d);
}

-- Sealing writes inside the active file.
pub backfill-Inside :
    (crc32c : Bytes → ℕ) (a : ActiveSegment) (dir : Dir)
    → 128 ≤ length (content_of a.path dir)
    → (dir' : Dir) × (backfill_header_ts crc32c a dir ≡ (ok tt, dir')) × Inside a.path dir dir'
unfolding backfill_header_ts
backfill-Inside crc32c a dir h =
    let min_written = write_at a.path 56 (to_le 8 a.min_ts) dir in
    let max_written = write_at a.path 64 (to_le 8 a.max_ts) min_written in
    let first =
      write_at-Inside a.path 56 (to_le 8 a.min_ts) dir (omega (arith, length-to_le 8 a.min_ts)) in
    let second =
      write_at-Inside a.path 64 (to_le 8 a.max_ts) min_written
        (omega (arith, length-to_le 8 a.max_ts, first.sized)) in
    let both = Inside-then a.path dir min_written max_written first second in
    let crc = crc32c (take 72 (content_of a.path max_written)) in
    let third =
      write_at-Inside a.path 72 (to_le 4 crc) max_written
        (omega (arith, length-to_le 4 crc, both.sized)) in
    let long : ltb (length (content_of a.path max_written)) 72 ≡ false =
      le→ltb-false (length (content_of a.path max_written)) 72 (omega (arith, both.sized)) in
    (
      write_at a.path 72 (to_le 4 crc) max_written,
      rw (backfill_header_ts, long) refl,
      Inside-then a.path dir max_written _ both third,
    )

pub Inside-IsManager :
    (m : SegmentManager) (dir : Dir)
    → IsManager m
    → Inside m.active.path m.dir dir
    → IsManager (record m { dir = dir })
Inside-IsManager m dir i s =
    let other : (j : ℕ) → j ≢ m.active_id → file_of j dir ≡ file_of j m.dir =
      (λ j n. s.other j (rw i.path_is n)) in
    record {
      path_is = i.path_is;
      header_in = i.header_in;
      sized = (rw i.path_is at s.sized) ∙ i.sized;
      ahead =
          Ahead-other m.prepared_segment (m.active_id + 1) m.dir dir
            (other (m.active_id + 1) (λ e. omega arith)) i.ahead;
      beyond = λ n. other (m.active_id + 2 + n) (λ e. omega arith) ∙ i.beyond n;
      covered = λ id. elim (ℕ_discrete id m.active_id) [
        | yes p ↦ inr (inr (omega arith))
        | no n ↦ covered_same id m.dir dir (other id n) (i.covered id)
      ];
      distinct = s.distinct i.distinct;
      strided = i.strided;
      hash_init_in = i.hash_init_in;
      last_hash_in = i.last_hash_in;
      layout = i.layout;
      some_size = i.some_size;
    }
