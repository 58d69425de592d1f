-- ===== src/Recovery/Frames/Layout.antt =====
-- Frames as logdb/src/storage/mod.rs writes them and logdb/src/recovery.rs reads them, and what reading their records
-- leaves.
use lv_logdb.Prelude.{
  ℕ, ◌+◌, ◌^◌, ◌≤◌, ◌<◌, ◌≡◌, refl, sym, ap, ◌∙◌, Bool, true, false, Option, some, List, [], ◌∷◌,
  ◌++◌, append_assoc, Bytes, to_le, from_le, from_le-to_le, length-to_le, int_at, slice,
  slice-append, take-append, length, ◌||◌, arith, length-append,
}
use lv_logdb.Format.{ReadView}
use lv_logdb.Recovery.Scan.{Segment, Scan}
use lv_logdb.Recovery.Scan.Complete.{stored}
use lv_logdb.Recovery.Scan.Recovered.{last_id, last_hash_of}
use lv_logdb.Recovery.Frames.Stored.{read_one, read_all}

-- The records of a batch, and what the file has for them.
pub record Frame : Type 0 where
  pub views : List ReadView
  pub payload : Bytes

abbrev pub views_of : List Frame → List ReadView
views_of [] = []
views_of (f ∷ fs) = f.views ++ views_of fs

-- A number that stands in a buffer.
pub int_at-append :
    (buf pre rest : Bytes) (n at : ℕ)
    → buf ≡ pre ++ (to_le 4 n ++ rest)
    → length pre ≡ at
    → n < 256 ^ 4
    → int_at 4 buf at ≡ n
int_at-append buf pre rest n at whole here lt = rw whole (
    ap from_le (
      slice-append pre (to_le 4 n ++ rest) at 4 here
      ∙ take-append 4 (to_le 4 n) rest (length-to_le 4 n))
    ∙ from_le-to_le 4 n lt)

-- What reading leaves of the rest of the state, and what it counts.
pub record IsRead (s : Scan) (vs : List ReadView) (t : Scan) : Type 0 where
  pub kept : t.kept ≡ s.kept
  pub warnings : t.warnings ≡ s.warnings
  pub count : t.count ≡ s.count + length vs
  pub sequence : t.last_sequence ≡ last_id s.last_sequence vs
  pub hash : t.last_hash ≡ last_hash_of s.last_hash vs

pub read_all-IsRead :
    (seg : Segment) (s : Scan) (vs : List ReadView) → IsRead s vs (read_all seg s vs)
unfolding read_all
read_all-IsRead seg s [] = record {
  kept = refl;
  warnings = refl;
  count = omega arith;
  sequence = refl;
  hash = refl;
}
read_all-IsRead seg s (v ∷ vs) =
    let ih = read_all-IsRead seg (read_one seg s v) vs in
    record {
      kept = ih.kept;
      warnings = ih.warnings;
      count = omega (arith, ih.count);
      sequence = ih.sequence;
      hash = ih.hash;
    }

last_id-append :
    (id : ℕ) (vs ws : List ReadView) → last_id id (vs ++ ws) ≡ last_id (last_id id vs) ws
last_id-append id [] ws = refl
last_id-append id (v ∷ vs) ws = last_id-append v.record_id vs ws

last_hash_of-append :
    (h : Bytes) (vs ws : List ReadView)
    → last_hash_of h (vs ++ ws) ≡ last_hash_of (last_hash_of h vs) ws
last_hash_of-append h [] ws = refl
last_hash_of-append h (v ∷ vs) ws = last_hash_of-append v.hash_n vs ws

pub IsRead-append :
    (s t u : Scan) (vs ws : List ReadView) → IsRead s vs t → IsRead t ws u → IsRead s (vs ++ ws) u
IsRead-append s t u vs ws a b = record {
  kept = b.kept ∙ a.kept;
  warnings = b.warnings ∙ a.warnings;
  count = omega (arith, a.count, b.count, length-append vs ws);
  sequence =
      b.sequence ∙ ap (λ i. last_id i ws) a.sequence ∙ sym (last_id-append s.last_sequence vs ws);
  hash = b.hash ∙ ap (λ h. last_hash_of h ws) a.hash ∙ sym (last_hash_of-append s.last_hash vs ws);
}

pub or_true : (b : Bool) → (b || true) ≡ true
or_true true = refl
or_true false = refl

module _ (crc32c : Bytes → ℕ) where
  -- The frame header, then the payload.
  abbrev pub frame_bytes : Frame → Bytes
  frame_bytes f =
      to_le 4 (length f.payload) ++ (to_le 4 (length (stored crc32c f.views)) ++ f.payload)

  abbrev pub frames : List Frame → Bytes
  frames [] = []
  frames (f ∷ fs) = frame_bytes f ++ frames fs

  -- The payload gives back the records, and its size and theirs fit the frame header.
  pub record IsFrame (decode : Bytes → Option Bytes) (f : Frame) : Type 0 where
    pub decoded : decode f.payload ≡ some (stored crc32c f.views)
    pub some_payload : 0 < length f.payload
    pub payload_in : length f.payload < 256 ^ 4
    pub some_records : 0 < length (stored crc32c f.views)
    pub records_in : length (stored crc32c f.views) < 256 ^ 4

  pub length-frame_bytes : (f : Frame) → length (frame_bytes f) ≡ 8 + length f.payload
  length-frame_bytes f =
      let cl = to_le 4 (length f.payload) in
      let dl = to_le 4 (length (stored crc32c f.views)) in
      omega (
        arith,
        length-append cl (dl ++ f.payload),
        length-append dl f.payload,
        length-to_le 4 (length f.payload),
        length-to_le 4 (length (stored crc32c f.views)),
      )

  -- A frame that stands in a buffer.
  pub frame_at :
      (decode : Bytes → Option Bytes) (f : Frame) (buf pre rest : Bytes) (at : ℕ)
      → buf ≡ pre ++ (frame_bytes f ++ rest)
      → length pre ≡ at
      → IsFrame decode f
      → (int_at 4 buf at ≡ length f.payload)
        × (int_at 4 buf (at + 4) ≡ length (stored crc32c f.views))
        × (slice buf (at + 8) (at + 8 + length f.payload) ≡ f.payload)
        × (at + 8 + length f.payload ≤ length buf)
  frame_at decode f buf pre rest at whole here v =
      let cl = to_le 4 (length f.payload) in
      let dl = to_le 4 (length (stored crc32c f.views)) in
      let one : buf ≡ pre ++ (cl ++ ((dl ++ f.payload) ++ rest)) =
        whole ∙ ap (λ t. pre ++ t) (append_assoc cl (dl ++ f.payload) rest) in
      let two : buf ≡ (pre ++ cl) ++ (dl ++ (f.payload ++ rest)) =
        one
        ∙ sym (append_assoc pre cl _)
        ∙ ap (λ t. pre ++ cl ++ t) (append_assoc dl f.payload rest) in
      let three : buf ≡ (pre ++ cl ++ dl) ++ (f.payload ++ rest) =
        two ∙ sym (append_assoc (pre ++ cl) dl _) in
      let a : length (pre ++ cl) ≡ at + 4 =
        omega (arith, length-append pre cl, length-to_le 4 (length f.payload)) in
      let b : length (pre ++ cl ++ dl) ≡ at + 8 =
        omega
          (arith, length-append (pre ++ cl) dl, length-to_le 4 (length (stored crc32c f.views))) in
      (
        int_at-append buf pre ((dl ++ f.payload) ++ rest) (length f.payload) at one here
            v.payload_in,
        int_at-append buf (pre ++ cl) (f.payload ++ rest) (length (stored crc32c f.views)) (at + 4)
            two a v.records_in,
        rw three (
            slice-append (pre ++ cl ++ dl) (f.payload ++ rest) (at + 8) (length f.payload) b
            ∙ take-append (length f.payload) f.payload rest refl),
        rw three (
            omega (
              arith,
              length-append (pre ++ cl ++ dl) (f.payload ++ rest),
              length-append f.payload rest,
            )),
      )
