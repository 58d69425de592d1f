-- ===== src/Recovery/Frames/Break.antt =====
-- The scan (logdb/src/recovery.rs) of a framed segment whose first record has a wrong hash: `torn!` ends the loop
-- over the frame, and the loop over the frames goes on.
use lv_logdb.Prelude.{
  ℕ, zero, suc, ◌+◌, ◌-◌, ◌<◌, ◌^◌, ◌≡◌, ◌≢◌, refl, sym, ap, ◌∙◌, inl, inr, true, false, Bool,
  Option, some, List, [], ◌∷◌, ◌++◌, append-nil, Bytes, take, take-append, take_all, replicate,
  length, ltb, if◌then◌else◌, arith, length-append, le→ltb-false, lt→ltb, ltb→lt, ltb-false→le,
  Bool-cases, bytes_eq, bytes_eq→eq, !=-refl, ne→==-false, min,
}
use lv_logdb.Format.{ReadView, segment_header_size}
use lv_logdb.Format.Record.{IsView, view_record}
use lv_logdb.Pipeline.Sealer.{blake3_keyed_chain}
use lv_logdb.Recovery.Scan.{Segment, Scan, start, next, stop, seen, hash_chain_break}
use lv_logdb.Recovery.Scan.Complete.{stored}
use lv_logdb.Recovery.Frames.{
  set_len, torn_at, take_record, chain_record, record_round, record_loop, frame_round, frame_loop,
  scan_frames, ended,
}
use lv_logdb.Recovery.Frames.Stored.{record_round-take}
use lv_logdb.Recovery.Frames.Layout.{Frame, frame_bytes, IsFrame, length-frame_bytes, frame_at}

module _ (crc32c : Bytes → ℕ) (keyed_hash : Bytes → Bytes → Bytes) (seg : Segment)
    (decode : Bytes → Option Bytes) (header : Bytes) (v : ReadView) (vs : List ReadView)
    (payload rest : Bytes) where
  abbrev first_frame : Frame
  first_frame = record { views = v ∷ vs; payload = payload }

  abbrev expected : Bytes
  expected = blake3_keyed_chain keyed_hash seg.chain_key seg.prev_last_hash v.content

  -- The segment begins with a whole frame, whose first record is at the segment's base and has a wrong hash.
  pub record BeginsWrong : Type 0 where
    pub small : (bs : Bytes) → crc32c bs < 256 ^ 4
    pub header_size : length header ≡ segment_header_size
    pub layout : seg.file ≡ header ++ (frame_bytes crc32c first_frame ++ rest)
    pub whole : IsFrame crc32c decode first_frame
    pub valid : IsView v.record_id v
    pub hashed : seg.hash_enabled ≡ true
    pub place : v.record_id ≡ seg.base_sequence
    pub wrong : expected ≢ v.hash_n

  -- The state that `torn!` leaves.
  abbrev broken : Scan
  broken =
      let t = seen (start seg) (view_record v.record_id v) in
      torn_at seg (record t { warnings = hash_chain_break seg.segment_id expected v.hash_n ∷ [] })

  -- The one behind the frame.
  abbrev behind : Scan
  behind = record broken { last_valid_offset = 136 + length payload; offset = 136 + length payload }

  not_equal : BeginsWrong → bytes_eq expected v.hash_n ≡ false
  not_equal b = differs (bytes_eq expected v.hash_n) refl
    where
      differs : (same : Bool) → bytes_eq expected v.hash_n ≡ same → same ≡ false
      differs true e = absurd (b.wrong (bytes_eq→eq _ _ e))
      differs false e = refl

  record_round-break :
      BeginsWrong
      → record_round crc32c keyed_hash seg
          (stored crc32c (v ∷ vs))
          (length (stored crc32c (v ∷ vs)))
          0
          (start seg)
        ≡ ended true broken
  unfolding take_record chain_record start
  record_round-break b =
      record_round-take crc32c keyed_hash seg b.small (start seg) v (stored crc32c (v ∷ vs)) []
        (stored crc32c vs) 0 (unfold stored in refl) refl b.valid
      ∙ rw (b.place, !=-refl, b.hashed, not_equal b) refl

  record_loop-break :
      BeginsWrong
      → (fuel : ℕ)
      → record_loop crc32c keyed_hash seg
          (suc fuel)
          (stored crc32c (v ∷ vs))
          (length (stored crc32c (v ∷ vs)))
          0
          (start seg)
        ≡ some (true, broken)
  unfolding record_loop
  record_loop-break b fuel = rw (record_round-break b, record_loop) refl

  broken-kept : BeginsWrong → broken.kept ≡ header
  unfolding torn_at start
  broken-kept b =
      let long : length seg.file ≡ 128 + length (frame_bytes crc32c first_frame ++ rest) =
        rw b.layout (
          omega (
            arith,
            b.header_size,
            length-append header (frame_bytes crc32c first_frame ++ rest),
          )) in
      let none_more : 128 - length seg.file ≡ 0 = omega arith in
      rw none_more (
        append-nil (take 128 seg.file)
        ∙ ap (take 128) b.layout
        ∙ take-append 128 header _ b.header_size)

  frame_round-break :
      BeginsWrong → frame_round crc32c keyed_hash seg decode (start seg) ≡ some (next behind)
  unfolding frame_round start
  frame_round-break b =
      let (cl, dl, read, long) =
        frame_at crc32c decode first_frame seg.file header rest 128 b.layout b.header_size
          b.whole in
      let bytes = stored crc32c (v ∷ vs) in
      let self : min (length bytes) (length bytes) ≡ length bytes = omega arith in
      rw
        (
          le→ltb-false (length seg.file) 136 (omega arith),
          cl,
          dl,
          ne→==-false (length payload) 0 (λ e. absurd (omega (arith, b.whole.some_payload))),
          ne→==-false (length bytes) 0 (λ e. absurd (omega (arith, b.whole.some_records))),
          le→ltb-false (length seg.file) (136 + length payload) long,
          read,
          b.whole.decoded,
          self,
          record_loop-break b (length bytes),
        )
        refl

  -- The round behind the frame: the file ends before it by now.
  frame_round-behind :
      BeginsWrong
      → frame_round crc32c keyed_hash seg decode behind ≡ some (stop (torn_at seg behind))
  unfolding frame_round
  frame_round-behind b =
      let short : length broken.kept ≡ 128 =
        ap (λ (u : Bytes). length u) (broken-kept b) ∙ b.header_size in
      elim (Bool-cases (ltb (length seg.file) (136 + length payload + 8))) [
        | inl at_end ↦ rw at_end refl
        | inr more ↦
            rw (more, lt→ltb (length broken.kept) (136 + length payload + 8) (omega arith)) refl
      ]

  torn_at-behind :
      BeginsWrong → (torn_at seg behind).kept ≡ header ++ replicate (8 + length payload) 0
  unfolding torn_at
  torn_at-behind b =
      let zeros : 136 + length payload - length header ≡ 8 + length payload =
        omega (arith, b.header_size) in
      ap (set_len (136 + length payload)) (broken-kept b)
      ∙ rw zeros (
          ap (λ u. u ++ replicate (8 + length payload) 0)
            (take_all (136 + length payload) header (omega (arith, b.header_size))))

  -- The state at the end.
  abbrev last_state : Scan
  last_state = if ltb 0 (length rest) then torn_at seg behind else behind

  length-file : BeginsWrong → length seg.file ≡ 136 + length payload + length rest
  length-file b = rw b.layout (
      omega (
        arith,
        b.header_size,
        length-append header (frame_bytes crc32c first_frame ++ rest),
        length-append (frame_bytes crc32c first_frame) rest,
        length-frame_bytes crc32c first_frame,
      ))

  frame_loop-behind :
      BeginsWrong
      → (fuel : ℕ) → 0 < fuel
      → frame_loop crc32c keyed_hash seg decode fuel behind ≡ some last_state
  unfolding frame_loop
  frame_loop-behind b zero h = absurd (omega arith)
  frame_loop-behind b (suc fuel) h =
      let at = 136 + length payload in
      let size = length-file b in
      elim (Bool-cases (ltb 0 (length rest))) [
        | inl more ↦ rw (
          more,
          lt→ltb at (length seg.file) (omega (arith, ltb→lt 0 (length rest) more)),
          frame_round-behind b,
        )
        | inr less ↦ rw (
          less,
          le→ltb-false at (length seg.file) (omega (arith, ltb-false→le 0 (length rest) less)),
        )
      ]

  scan_frames-last_state : BeginsWrong → scan_frames crc32c keyed_hash seg decode ≡ some last_state
  unfolding scan_frames frame_loop
  scan_frames-last_state b =
      let some_file : 0 < length seg.file = omega (arith, length-file b) in
      let in_file : (start seg).offset < length seg.file =
        unfold start in omega (arith, length-file b) in
      rw (lt→ltb (start seg).offset (length seg.file) in_file, frame_round-break b)
        (frame_loop-behind b (length seg.file) some_file)

  -- In a compressed or encrypted segment with hashes on that begins with a whole frame, whose first record is at the
  -- segment's base and has a wrong hash, the scan ends and keeps the header alone of what was written; but it reports
  -- the end of the frame that it threw away as the offset to go on at. Where more bytes followed that frame, zeros
  -- stand between the header and that offset; otherwise the offset lies behind the end of the file.
  pub scan_frames-hash_break :
      BeginsWrong
      → (t : Scan) × (scan_frames crc32c keyed_hash seg decode ≡ some t)
        × (t.kept ≡ header ++ replicate (if ltb 0 (length rest) then 8 + length payload else 0) 0)
        × (t.last_valid_offset ≡ 136 + length payload)
        × (t.last_sequence ≡ v.record_id)
        × (t.count ≡ 1)
  unfolding torn_at start
  scan_frames-hash_break b =
      let returned = scan_frames-last_state b in
      elim (Bool-cases (ltb 0 (length rest))) [
        | inl more ↦ (
          last_state,
          returned,
          rw more (torn_at-behind b),
          rw more refl,
          rw more refl,
          rw more refl,
        )
        | inr less ↦ (
          last_state,
          returned,
          rw less (broken-kept b ∙ sym (append-nil header)),
          rw less refl,
          rw less refl,
          rw less refl,
        )
      ]
