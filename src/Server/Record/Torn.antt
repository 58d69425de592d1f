-- ===== src/Server/Record/Torn.antt =====
-- A record of the server that is cut short is an error (logdbd/src/record.rs). What a reader accepts it accepts
-- with more bytes behind, and leaves these.
use lv_logdb.Prelude.{
  append-take-drop, ◌!=◌, ℕ, zero, suc, ◌≤◌, ◌<◌, ◌≡◌, refl, sym, ap, ◌∙◌, inl, inr, Bool, true,
  false, not, [], ◌∷◌, ◌++◌, append-nil, length, take, drop, Bytes, ltb, Result, ok, err, IsErr,
  Bool-cases, arith, length-append, length-drop, ltb-false→le, le→ltb-false, take-append_le,
}
use lv_logdb.Server.Record.{
  DecodedRecord, Metadata, RecordError, insert, Reader, pure, reject_if, read_bytes, read_int,
  read_str, read_metadata, read_record, decode_record, encode_record, record_magic, record_version,
  ◌>>=◌,
}
use lv_logdb.Server.Record.RoundTrip.{IsRecord, encode_record-encoded, read_record-fields, encoded}

abbrev Extends : {A : Type 0} → Reader A → Type 0
Extends {A} p =
    (xs ys rest : Bytes) (a : A) → p xs ≡ ok (a, rest) → p (xs ++ ys) ≡ ok (a, rest ++ ys)

Extends-pure : {A : Type 0} (a : A) → Extends (pure a)
Extends-pure a xs ys rest b e = cc

Extends-reject_if : (b : Bool) (e : RecordError) → Extends (reject_if b e)
Extends-reject_if true e xs ys rest a h = absurd cc
Extends-reject_if false e xs ys rest a h = cc

Extends->>= :
    {A B : Type 0} (m : Reader A) (f : A → Reader B)
    → Extends m
    → ((a : A) → Extends (f a))
    → Extends (m >>= f)
Extends->>= {A} {B} m f hm hf xs ys rest b e = each (m xs) refl e
  where
    each :
        (r : Result RecordError (A × Bytes))
        → m xs ≡ r
        → ◌≡◌ {A = Result RecordError (B × Bytes)}
            (elim r [ ok t ↦ f t.0 t.1 | err e' ↦ err e' ])
            (ok (b, rest))
        → (m >>= f) (xs ++ ys) ≡ ok (b, rest ++ ys)
    each (ok t) same h =
        ap (λ r. elim r [ ok t ↦ f t.0 t.1 | err e' ↦ err e' ]) (hm xs ys t.1 t.0 same)
        ∙ hf t.0 t.1 ys rest b h
    each (err e') same h = absurd cc

drop-append_le : (n : ℕ) (xs ys : Bytes) → n ≤ length xs → drop n (xs ++ ys) ≡ drop n xs ++ ys
drop-append_le zero xs ys h = refl
drop-append_le (suc n) [] ys h = absurd (omega arith)
drop-append_le (suc n) (x ∷ xs) ys h = drop-append_le n xs ys (omega arith)

Extends-read_bytes : (len : ℕ) → Extends (read_bytes len)
unfolding read_bytes
Extends-read_bytes len xs ys rest a e = elim (Bool-cases (ltb (length xs) len)) [
  | inl short ↦ absurd (let z = rw (read_bytes, short) at e in cc)
  | inr enough ↦
      let le = ltb-false→le (length xs) len enough in
      let read = rw (read_bytes, enough) at e in
      let more = le→ltb-false (length (xs ++ ys)) len (omega (arith, le, length-append xs ys)) in
      rw (read_bytes, more, take-append_le len xs ys le, drop-append_le len xs ys le)
        (ap (λ r. elim r [ ok t ↦ ok (t.0, t.1 ++ ys) | err e' ↦ err e' ]) read)
]

Extends-read_int : (w : ℕ) → Extends (read_int w)
unfolding read_int
Extends-read_int w xs ys rest a e = elim (Bool-cases (ltb (length xs) w)) [
  | inl short ↦ absurd (let z = rw (read_int, short) at e in cc)
  | inr enough ↦
      let le = ltb-false→le (length xs) w enough in
      let read = rw (read_int, enough) at e in
      let more = le→ltb-false (length (xs ++ ys)) w (omega (arith, le, length-append xs ys)) in
      rw (read_int, more, take-append_le w xs ys le, drop-append_le w xs ys le)
        (ap (λ r. elim r [ ok t ↦ ok (t.0, t.1 ++ ys) | err e' ↦ err e' ]) read)
]

module _ (is_utf8 : Bytes → Bool) where
  Extends-read_str : (len : ℕ) → Extends (read_str is_utf8 len)
  unfolding read_str
  Extends-read_str len = Extends->>= (read_bytes len) _ (Extends-read_bytes len) (λ s.
      Extends->>= (reject_if (not (is_utf8 s)) _) _ (Extends-reject_if (not (is_utf8 s)) _)
        (λ u. Extends-pure s))

  Extends-read_metadata : (n : ℕ) (es : Metadata) → Extends (read_metadata is_utf8 n es)
  unfolding read_metadata
  Extends-read_metadata zero es = Extends-pure es
  Extends-read_metadata (suc n) es = Extends->>= (read_int 1) _ (Extends-read_int 1) (λ k_len.
      Extends->>= (read_str is_utf8 k_len) _ (Extends-read_str k_len) (λ key.
        Extends->>= (read_int 2) _ (Extends-read_int 2) (λ v_len.
          Extends->>= (read_str is_utf8 v_len) _ (Extends-read_str v_len)
            (λ value. Extends-read_metadata n (insert key value es)))))

  Extends-read_record : Extends (read_record is_utf8)
  unfolding read_record
  Extends-read_record = Extends->>= (read_int 2) _ (Extends-read_int 2) (λ magic.
      Extends->>= (reject_if (magic != record_magic) _) _
        (Extends-reject_if (magic != record_magic) _)
        (λ u. Extends->>= (read_int 1) _ (Extends-read_int 1) (λ version.
          Extends->>= (reject_if (version != record_version) _) _
            (Extends-reject_if (version != record_version) _)
            (λ u'. Extends->>= (read_int 1) _ (Extends-read_int 1) (λ flags.
              Extends->>= (read_int 4) _ (Extends-read_int 4) (λ namespace_id.
                Extends->>= (read_int 8) _ (Extends-read_int 8) (λ stream_id.
                  Extends->>= (read_int 8) _ (Extends-read_int 8) (λ seq.
                    Extends->>= (read_int 2) _ (Extends-read_int 2) (λ et_len.
                      Extends->>= (read_str is_utf8 et_len) _ (Extends-read_str et_len)
                        (λ event_type. Extends->>= (read_int 2) _ (Extends-read_int 2) (λ ct_len.
                          Extends->>= (read_str is_utf8 ct_len) _ (Extends-read_str ct_len)
                            (λ content_type.
                              Extends->>= (read_int 1) _ (Extends-read_int 1) (λ meta_count.
                                Extends->>= (read_metadata is_utf8 meta_count []) _
                                  (Extends-read_metadata meta_count [])
                                  (λ metadata.
                                    Extends->>= (read_int 8) _ (Extends-read_int 8) (λ timestamp_ns.
                                      Extends->>= (read_int 4) _ (Extends-read_int 4)
                                        (λ content_len.
                                          Extends->>= (read_bytes content_len) _
                                            (Extends-read_bytes content_len)
                                            (λ user_content. Extends-pure _)))))))))))))))))

  -- The bytes of a record whose fields have the ranges of their types, valid texts, and lengths that fit
  -- the format, cut anywhere before their end, are not decoded.
  pub decode_record-take-IsErr :
      (d : DecodedRecord) (k : ℕ)
      → IsRecord is_utf8 d
      → (raw : Bytes) × (encode_record d.namespace_id d.stream_id d.seq d.event_type d.content_type
            d.metadata d.timestamp_ns d.user_content
          ≡ ok raw)
        × (k < length raw → IsErr (decode_record is_utf8 (take k raw)))
  unfolding decode_record
  decode_record-take-IsErr d k v =
      let raw = encoded d in
      (
        raw,
        encode_record-encoded is_utf8 d v,
        λ cut. each (read_record is_utf8 (take k raw)) refl cut,
      )
    where
      left_of : Result RecordError (DecodedRecord × Bytes) → Bytes
      left_of (ok t) = t.1
      left_of (err e) = []

      each :
          (r : Result RecordError (DecodedRecord × Bytes))
          → read_record is_utf8 (take k (encoded d)) ≡ r
          → k < length (encoded d)
          → IsErr (elim r [ ok t ↦ ok t.0 | err e ↦ err e ])
      each (err e) same cut = tt
      each (ok t) same cut =
          let raw = encoded d in
          let more = Extends-read_record (take k raw) (drop k raw) t.1 t.0 same in
          let whole = read_record-fields is_utf8 d [] v in
          let joined = append-take-drop k raw ∙ sym (append-nil raw) in
          let left : t.1 ++ drop k raw ≡ [] =
            ap left_of (sym more ∙ ap (read_record is_utf8) joined ∙ whole) in
          absurd (omega (arith, ap length left, length-append t.1 (drop k raw), length-drop k raw))
